-- ===== src/Browser/Egress.antt =====
-- `startBrowserProxy`: the firewall that keeps the browser's user on loopback, and the listener of
-- the SOCKS proxy. A command's error is a parameter; no command is run twice for a firewall.
pub mod Errors
pub mod Opening
pub mod Rules
use telco_helm_charts.Common.{
  ℕ, String, Bool, true, false, not, ◌&&◌, Option, none, some, List, [], ◌∷◌, ◌++◌, nat_eq,
  if◌then◌else◌, ◌==◌, ◌<>◌,
}

pub data Effect : Type 0 where
  run : (firewall : String) (args : List String) → Effect
  listen : Effect
  serve : Effect

-- What was done, and the error that ended it.
pub record Result : Type 0 where
  pub effects : List Effect
  pub error : Option String

abbrev pub finish : List Effect → Option String → Result
finish effects error = record { effects = effects; error = error }

-- The second part follows if the first has no error.
abbrev pub and_then : Result → Result → Result
and_then r q = elim r.error [ some err ↦ r | none ↦ finish (r.effects ++ q.effects) q.error ]

-- The chain of the browser: nothing but loopback and answers.
abbrev pub chain_rules : List (List String)
chain_rules =
    ("-N" ∷ "ELLA_BROWSER" ∷ [])
    ∷ ("-F" ∷ "ELLA_BROWSER" ∷ [])
    ∷ ("-A" ∷ "ELLA_BROWSER" ∷ "-o" ∷ "lo" ∷ "-j" ∷ "RETURN" ∷ [])
    ∷ ("-A" ∷ "ELLA_BROWSER" ∷ "-m" ∷ "conntrack" ∷ "--ctstate" ∷ "ESTABLISHED,RELATED" ∷ "-j"
        ∷ "RETURN" ∷ [])
    ∷ ("-A" ∷ "ELLA_BROWSER" ∷ "-j" ∷ "REJECT" ∷ [])
    ∷ []

-- The jump to the chain for the browser's user: the test, and the insertion.
abbrev pub owner_match : List String
owner_match = "-m" ∷ "owner" ∷ "--uid-owner" ∷ "1000" ∷ "-j" ∷ "ELLA_BROWSER" ∷ []

abbrev pub check_jump : List String
check_jump = "-C" ∷ "OUTPUT" ∷ owner_match

abbrev pub insert_jump : List String
insert_jump = "-I" ∷ "OUTPUT" ∷ "1" ∷ owner_match

-- `args[0] != "-N"`
abbrev pub creates : List String → Bool
creates [] = false
creates (a ∷ args) = a == "-N"

-- The error of a command's process, with what the command printed.
module _ (failure : (firewall : String) → List String → Option String) where
  unfoldable pub run_rule : String → List String → Result
  run_rule firewall args = elim (failure firewall args) [
    | none ↦ finish (run firewall args ∷ []) none
    | some err ↦
        if creates args
        then finish (run firewall args ∷ []) none
        else finish (run firewall args ∷ []) (some ("browser firewall: " <> err))
  ]

  -- The loop over the rules.
  unfoldable pub run_rules : String → List (List String) → Result
  run_rules firewall [] = finish [] none
  run_rules firewall (args ∷ rest) = and_then (run_rule firewall args) (run_rules firewall rest)

  unfoldable pub ensure_jump : String → Result
  ensure_jump firewall = elim (failure firewall check_jump) [
    | none ↦ finish (run firewall check_jump ∷ []) none
    | some missing ↦ elim (failure firewall insert_jump) [
      | none ↦ finish (run firewall check_jump ∷ run firewall insert_jump ∷ []) none
      | some err ↦
          finish (run firewall check_jump ∷ run firewall insert_jump ∷ [])
            (some ("browser firewall: " <> err))
    ]
  ]

  -- The loop over the firewalls.
  unfoldable pub protect : List String → Result
  protect [] = finish [] none
  protect (firewall ∷ rest) =
      and_then (and_then (run_rules firewall chain_rules) (ensure_jump firewall)) (protect rest)

  -- `listen` is a listener that was opened: `listen_error` is that of `net.Listen`, which then opens
  -- none. `serve` starts the goroutine that accepts connections.
  unfoldable pub open_listener : Option String → Result
  open_listener (some err) = finish [] (some err)
  open_listener none = finish (listen ∷ serve ∷ []) none

  unfoldable pub start_browser_proxy : (phones : ℕ) (listen_error : Option String) → Result
  start_browser_proxy phones listen_error =
      if not (nat_eq phones 1)
      then finish [] (some "remote browser requires one UE per deployment")
      else and_then (protect ("iptables" ∷ "ip6tables" ∷ [])) (open_listener listen_error)
