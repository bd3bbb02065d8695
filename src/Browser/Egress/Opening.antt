-- ===== src/Browser/Egress/Opening.antt =====
-- Which parts of `startBrowserProxy` open the listener.
use telco_helm_charts.Common.{
  String, Bool, true, false, ◌||◌, Option, List, [], ◌∷◌, ◌++◌, ◌≡◌, refl, arith,
}
use telco_helm_charts.Browser.Egress.{
  Effect, run, listen, serve, Result, and_then, chain_rules, run_rule, run_rules, ensure_jump,
  protect,
}

-- The listener is opened.
unfoldable pub opens : List Effect → Bool
opens [] = false
opens (run firewall args ∷ es) = opens es
opens (listen ∷ es) = true
opens (serve ∷ es) = opens es

pub opens-append : (es fs : List Effect) → opens (es ++ fs) ≡ (opens es || opens fs)
unfolding opens
opens-append [] fs = refl
opens-append (run firewall args ∷ es) fs = opens-append es fs
opens-append (listen ∷ es) fs = refl
opens-append (serve ∷ es) fs = opens-append es fs

module _ (failure : (firewall : String) → List String → Option String) where
  pub and_then-opens :
      (r q : Result)
      → opens r.effects ≡ false
      → opens q.effects ≡ false
      → opens (and_then r q).effects ≡ false
  and_then-opens r q h k = ground (arith, opens-append r.effects q.effects)

  pub run_rule-opens :
      (firewall : String) (args : List String)
      → opens (run_rule failure firewall args).effects ≡ false
  unfolding run_rule opens
  run_rule-opens firewall args = ground arith

  pub run_rules-opens :
      (firewall : String) (rules : List (List String))
      → opens (run_rules failure firewall rules).effects ≡ false
  unfolding run_rules opens
  run_rules-opens firewall [] = refl
  run_rules-opens firewall (args ∷ rules) =
      and_then-opens (run_rule failure firewall args) (run_rules failure firewall rules)
        (run_rule-opens firewall args) (run_rules-opens firewall rules)

  pub ensure_jump-opens : (firewall : String) → opens (ensure_jump failure firewall).effects ≡ false
  unfolding ensure_jump opens
  ensure_jump-opens firewall = ground arith

  pub protect-opens : (firewalls : List String) → opens (protect failure firewalls).effects ≡ false
  unfolding protect opens
  protect-opens [] = refl
  protect-opens (firewall ∷ rest) =
      let rules = run_rules failure firewall chain_rules in
      let jump = ensure_jump failure firewall in
      let first =
        and_then-opens rules jump (run_rules-opens firewall chain_rules)
          (ensure_jump-opens firewall) in
      and_then-opens (and_then rules jump) (protect failure rest) first (protect-opens rest)
