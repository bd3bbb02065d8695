-- ===== src/Browser/Egress/Errors.antt =====
-- When the parts of `startBrowserProxy` end without an error.
use telco_helm_charts.Common.{
  String, true, Option, none, List, [], ◌∷◌, ◌≡◌, ◌↔◌, ◌⊎◌, refl, arith, All,
}
use telco_helm_charts.Browser.Egress.{
  Result, and_then, chain_rules, check_jump, insert_jump, creates, run_rule, run_rules, ensure_jump,
  protect,
}

module _ (failure : (firewall : String) → List String → Option String) where
  -- The firewall has the rules: each command succeeds but that which makes the chain, and the jump
  -- is there or can be inserted.
  abbrev pub Succeeds : String → List String → Type 0
  Succeeds firewall args = (creates args ≡ true) ⊎ (failure firewall args ≡ none)

  abbrev pub Succeeding : String → Type 0
  Succeeding firewall =
      All (Succeeds firewall) chain_rules
      × ((failure firewall check_jump ≡ none) ⊎ (failure firewall insert_jump ≡ none))

  pub and_then-error_iff :
      (r q : Result) → ((and_then r q).error ≡ none) ↔ ((r.error ≡ none) × (q.error ≡ none))
  and_then-error_iff r q = ground arith

  pub run_rule-error_iff :
      (firewall : String) (args : List String)
      → ((run_rule failure firewall args).error ≡ none) ↔ Succeeds firewall args
  unfolding run_rule
  run_rule-error_iff firewall args = ground arith

  pub run_rules-error_iff :
      (firewall : String) (rules : List (List String))
      → ((run_rules failure firewall rules).error ≡ none) ↔ All (Succeeds firewall) rules
  unfolding run_rules
  run_rules-error_iff firewall [] = (λ e. tt, λ e. refl)
  run_rules-error_iff firewall (args ∷ rules) =
      ground (arith, run_rules-error_iff firewall rules, run_rule-error_iff firewall args)

  pub ensure_jump-error_iff :
      (firewall : String)
      → ((ensure_jump failure firewall).error ≡ none)
        ↔ ((failure firewall check_jump ≡ none) ⊎ (failure firewall insert_jump ≡ none))
  unfolding ensure_jump
  ensure_jump-error_iff firewall = ground arith

  pub protect-error_iff :
      (firewalls : List String)
      → ((protect failure firewalls).error ≡ none) ↔ All Succeeding firewalls
  unfolding protect
  protect-error_iff [] = (λ e. tt, λ e. refl)
  protect-error_iff (firewall ∷ rest) =
      let both = and_then (run_rules failure firewall chain_rules) (ensure_jump failure firewall) in
      let (left, right) = and_then-error_iff both (protect failure rest) in
      let (one, two) =
        and_then-error_iff (run_rules failure firewall chain_rules)
          (ensure_jump failure firewall) in
      let (rules, unrules) = run_rules-error_iff firewall chain_rules in
      let (jump, unjump) = ensure_jump-error_iff firewall in
      let (more, unmore) = protect-error_iff rest in
      (
        λ e. ((rules (one (left e).0).0, jump (one (left e).0).1), more (left e).1),
        λ h. right (two (unrules h.0.0, unjump h.0.1), unmore h.1),
      )
