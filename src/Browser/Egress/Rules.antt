-- ===== src/Browser/Egress/Rules.antt =====
-- When the proxy of the remote browser starts.
use telco_helm_charts.Common.{
  ℕ, String, true, false, Option, none, some, List, [], ◌∷◌, ◌++◌, nat_eq, ◌≡◌, ◌≢◌, ◌↔◌, ◌⊎◌, inl,
  inr, refl, ap, ◌∙◌, arith, Bool-cases,
}
use telco_helm_charts.Browser.Egress.Opening.{opens, opens-append, protect-opens}
use telco_helm_charts.Browser.Egress.Errors.{Succeeding, and_then-error_iff, protect-error_iff}
use mathlib.Core.List.{append-nil}
use telco_helm_charts.Browser.Egress.{
  Effect, run, listen, serve, Result, and_then, chain_rules, run_rule, run_rules, ensure_jump,
  protect, open_listener, start_browser_proxy,
}

module _ (failure : (firewall : String) → List String → Option String) where
  -- The command ends without an error.
  abbrev pub Runs : String → List String → Type 0
  Runs firewall args = failure firewall args ≡ none

  -- The chain can be emptied, it lets loopback and answers through and rejects all else, and the
  -- traffic of the browser's user is sent to it, or can be.
  abbrev pub Protects : String → Type 0
  Protects firewall =
      Runs firewall ("-F" ∷ "ELLA_BROWSER" ∷ [])
      × Runs firewall ("-A" ∷ "ELLA_BROWSER" ∷ "-o" ∷ "lo" ∷ "-j" ∷ "RETURN" ∷ [])
      × Runs firewall (
          "-A" ∷ "ELLA_BROWSER" ∷ "-m" ∷ "conntrack" ∷ "--ctstate" ∷ "ESTABLISHED,RELATED" ∷ "-j"
          ∷ "RETURN" ∷ [])
      × Runs firewall ("-A" ∷ "ELLA_BROWSER" ∷ "-j" ∷ "REJECT" ∷ [])
      × (Runs firewall
            ("-C" ∷ "OUTPUT" ∷ "-m" ∷ "owner" ∷ "--uid-owner" ∷ "1000" ∷ "-j" ∷ "ELLA_BROWSER" ∷ [])
          ⊎ Runs firewall (
              "-I" ∷ "OUTPUT" ∷ "1" ∷ "-m" ∷ "owner" ∷ "--uid-owner" ∷ "1000" ∷ "-j"
              ∷ "ELLA_BROWSER" ∷ []))

  -- The commands that make the chain of a firewall, in their order, and those for the jump, which is
  -- inserted only if it is missing.
  abbrev pub jump_commands : String → List Effect
  jump_commands firewall =
      let check : List String =
        "-C" ∷ "OUTPUT" ∷ "-m" ∷ "owner" ∷ "--uid-owner" ∷ "1000" ∷ "-j" ∷ "ELLA_BROWSER" ∷ [] in
      elim (failure firewall check) [
        | none ↦ run firewall check ∷ []
        | some missing ↦
            run firewall check
            ∷ run firewall (
                "-I" ∷ "OUTPUT" ∷ "1" ∷ "-m" ∷ "owner" ∷ "--uid-owner" ∷ "1000" ∷ "-j"
                ∷ "ELLA_BROWSER" ∷ [])
            ∷ []
      ]

  abbrev pub commands : String → List Effect
  commands firewall =
      run firewall ("-N" ∷ "ELLA_BROWSER" ∷ [])
      ∷ run firewall ("-F" ∷ "ELLA_BROWSER" ∷ [])
      ∷ run firewall ("-A" ∷ "ELLA_BROWSER" ∷ "-o" ∷ "lo" ∷ "-j" ∷ "RETURN" ∷ [])
      ∷ run firewall (
          "-A" ∷ "ELLA_BROWSER" ∷ "-m" ∷ "conntrack" ∷ "--ctstate" ∷ "ESTABLISHED,RELATED" ∷ "-j"
          ∷ "RETURN" ∷ [])
      ∷ run firewall ("-A" ∷ "ELLA_BROWSER" ∷ "-j" ∷ "REJECT" ∷ [])
      ∷ jump_commands firewall

  Succeeding-Protects : (firewall : String) → Succeeding failure firewall ↔ Protects firewall
  Succeeding-Protects firewall = ground arith

  run_rule-effects :
      (firewall : String) (args : List String)
      → (run_rule failure firewall args).effects ≡ run firewall args ∷ []
  unfolding run_rule
  run_rule-effects firewall args = ground arith

  abbrev pub run_all : String → List (List String) → List Effect
  run_all firewall [] = []
  run_all firewall (args ∷ rest) = run firewall args ∷ run_all firewall rest

  and_then-effects :
      (r q : Result) → r.error ≡ none → (and_then r q).effects ≡ r.effects ++ q.effects
  and_then-effects r q e = ground arith

  run_rules-effects :
      (firewall : String) (rules : List (List String))
      → (run_rules failure firewall rules).error ≡ none
      → (run_rules failure firewall rules).effects ≡ run_all firewall rules
  unfolding run_rules
  run_rules-effects firewall [] e = refl
  run_rules-effects firewall (args ∷ rules) e =
      let (one, rest) =
        (and_then-error_iff failure (run_rule failure firewall args)
            (run_rules failure firewall rules)).0
          e in
      and_then-effects (run_rule failure firewall args) (run_rules failure firewall rules) one
      ∙ rw (run_rule-effects firewall args, run_rules-effects firewall rules rest) refl

  ensure_jump-effects :
      (firewall : String) → (ensure_jump failure firewall).effects ≡ jump_commands firewall
  unfolding ensure_jump
  ensure_jump-effects firewall = ground arith

  firewall-effects :
      (firewall : String)
      → (and_then (run_rules failure firewall chain_rules) (ensure_jump failure firewall)).error
        ≡ none
      → (and_then (run_rules failure firewall chain_rules) (ensure_jump failure firewall)).effects
        ≡ commands firewall
  firewall-effects firewall e =
      let rules = run_rules failure firewall chain_rules in
      let jump = ensure_jump failure firewall in
      let made = ((and_then-error_iff failure rules jump).0 e).0 in
      and_then-effects rules jump made
      ∙ rw (run_rules-effects firewall chain_rules made, ensure_jump-effects firewall) refl

  protect-effects :
      (protect failure ("iptables" ∷ "ip6tables" ∷ [])).error ≡ none
      → (protect failure ("iptables" ∷ "ip6tables" ∷ [])).effects
        ≡ commands "iptables" ++ commands "ip6tables"
  unfolding protect
  protect-effects e =
      let four =
        and_then (run_rules failure "iptables" chain_rules) (ensure_jump failure "iptables") in
      let six =
        and_then (run_rules failure "ip6tables" chain_rules) (ensure_jump failure "ip6tables") in
      let last : Result = record { effects = []; error = none } in
      let (first, rest) = (and_then-error_iff failure four (and_then six last)).0 e in
      let second = ((and_then-error_iff failure six last).0 rest).0 in
      and_then-effects four (and_then six last) first
      ∙ rw
          (
            firewall-effects "iptables" first,
            and_then-effects six last second,
            firewall-effects "ip6tables" second,
            append-nil (commands "ip6tables"),
          )
          refl

  abbrev pub IsProtected : ℕ → Type 0
  IsProtected phones = (phones ≡ 1) × Protects "iptables" × Protects "ip6tables"

  and_then-open_listener :
      (r : Result) (listen_error : Option String)
      → opens r.effects ≡ false
      → (opens (and_then r (open_listener failure listen_error)).effects ≡ true)
        ↔ ((r.error ≡ none) × (listen_error ≡ none))
  unfolding open_listener opens
  and_then-open_listener r listen_error h =
      ground (arith, opens-append r.effects [], opens-append r.effects (listen ∷ serve ∷ []))

  open_listener-error_iff :
      (listen_error : Option String)
      → ((open_listener failure listen_error).error ≡ none) ↔ (listen_error ≡ none)
  unfolding open_listener
  open_listener-error_iff listen_error = ground arith

  protect-Protects :
      ((protect failure ("iptables" ∷ "ip6tables" ∷ [])).error ≡ none)
      ↔ (Protects "iptables" × Protects "ip6tables")
  protect-Protects =
      let (safe, unsafe) = protect-error_iff failure ("iptables" ∷ "ip6tables" ∷ []) in
      let (four, unfour) = Succeeding-Protects "iptables" in
      let (six, unsix) = Succeeding-Protects "ip6tables" in
      (λ e. let (a, b) = safe e in (four a, six b.0), λ h. unsafe (unfour h.0, (unsix h.1, tt)))

  -- The commands of both firewalls, the listener and the goroutine that serves it.
  abbrev pub all_effects : List Effect
  all_effects = (commands "iptables" ++ commands "ip6tables") ++ listen ∷ serve ∷ []

  start-effects :
      (protect failure ("iptables" ∷ "ip6tables" ∷ [])).error ≡ none
      → (and_then
          (protect failure ("iptables" ∷ "ip6tables" ∷ []))
          (open_listener failure none)).effects
        ≡ all_effects
  unfolding open_listener
  start-effects e =
      let start = protect failure ("iptables" ∷ "ip6tables" ∷ []) in
      and_then-effects start (open_listener failure none) e ∙ rw (protect-effects e) refl

  opens-all_effects : opens all_effects ≡ true
  unfolding opens
  opens-all_effects =
      ground
        (arith, opens-append (commands "iptables" ++ commands "ip6tables") (listen ∷ serve ∷ []))

  -- The proxy of the browser listens exactly if there is one phone, each firewall takes the rules that
  -- keep the browser's user on loopback, and `net.Listen` has no error; exactly then it starts without
  -- an error; and exactly then all its effects are, in this order, the commands that make these rules
  -- in `iptables` and in `ip6tables`, the listener, and the goroutine that serves it.
  pub start_browser_proxy-opens_iff :
      (phones : ℕ) (listen_error : Option String)
      → ((opens (start_browser_proxy failure phones listen_error).effects ≡ true)
          ↔ (IsProtected phones × (listen_error ≡ none)))
        × ((start_browser_proxy failure phones listen_error).error ≡ none
            ↔ (IsProtected phones × (listen_error ≡ none)))
        × (((start_browser_proxy failure phones listen_error).effects ≡ all_effects)
            ↔ (IsProtected phones × (listen_error ≡ none)))
  unfolding start_browser_proxy opens
  start_browser_proxy-opens_iff phones listen_error =
      let start = protect failure ("iptables" ∷ "ip6tables" ∷ []) in
      let (safe, unsafe) = protect-Protects in
      let (heard, unheard) =
        and_then-open_listener start listen_error
          (protect-opens failure ("iptables" ∷ "ip6tables" ∷ [])) in
      let (fine, unfine) = and_then-error_iff failure start (open_listener failure listen_error) in
      let (bound, unbound) = open_listener-error_iff listen_error in
      elim (Bool-cases (nat_eq phones 1)) [
        | inl e ↦
            let one : phones ≡ 1 = ground arith in
            rw e (
              (
                λ h. let b = safe (heard h).0 in ((one, b.0, b.1), (heard h).1),
                λ h. unheard (unsafe (h.0.1, h.0.2), h.1),
              ),
              (
                λ h. let b = safe (fine h).0 in ((one, b.0, b.1), bound (fine h).1),
                λ h. unfine (unsafe (h.0.1, h.0.2), unbound h.1),
              ),
              (
                λ h.
                    let up = heard (ap opens h ∙ opens-all_effects) in
                    let b = safe up.0 in ((one, b.0, b.1), up.1),
                λ h. rw h.1 (start-effects (unsafe (h.0.1, h.0.2))),
              ),
            )
        | inr e ↦
            let other : phones ≢ 1 = ground arith in
            let no : false ≢ true = ground arith in
            rw e (
              (λ h. cc, λ h. absurd (other h.0.0)),
              (λ h. cc, λ h. absurd (other h.0.0)),
              (λ h. absurd (no (ap opens h ∙ opens-all_effects)), λ h. absurd (other h.0.0)),
            )
      ]
