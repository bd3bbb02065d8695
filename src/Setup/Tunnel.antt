-- ===== src/Setup/Tunnel.antt =====
-- `attachInternet` of browse.go: the tunnel of a phone's internet session and the policy rules that
-- route its traffic. The gNB and the kernel are a parameter, and `number` is `fmt.Sprint` of a number.
pub mod Policy
use telco_helm_charts.Common.{
  ℕ, ◌+◌, String, Bool, Option, none, some, List, [], ◌∷◌, ◌++◌, if◌then◌else◌, ◌<>◌,
}

-- A rule sends the traffic of a source address to a table; the address is what `net.ParseIP` reads.
pub record Rule : Type 0 where
  pub table : ℕ
  pub priority : ℕ
  pub source : Option String

-- The default route of a table: through a link, or that there is none.
pub data Target : Type 0 where
  link : ℕ → Target
  unreachable : Target

pub data Call : Type 0 where
  open_session : Call
  delete_rule : Rule → Call
  delete_link : String → Call
  add_tunnel : (name address : String) → Call
  replace_route : (table : ℕ) → Target → Call
  add_rule : Rule → Call
  watch : Call

-- `session` is the address of the phone, or an error; `stale` tells that there is a link with the
-- name of the tunnel before it is made, and `found` is the index of the link afterwards, or an error.
-- `parse_ip` is `net.ParseIP`, which reads no address from a text that is none.
pub data Lookup : Type 0 where
  missing : String → Lookup
  index : ℕ → Lookup

pub data Session : Type 0 where
  refused : String → Session
  opened : (address : String) → Session

pub record Network : Type 0 where
  pub session : Session
  pub stale : Bool
  pub found : Lookup
  pub failure : Call → Option String
  pub parse_ip : String → Option String

-- The calls that were made, and the phone's address or the error that ended them.
pub data Ending : Type 0 where
  failed : String → Ending
  attached : (address : String) → Ending

pub record Attempt : Type 0 where
  pub calls : List Call
  pub ending : Ending

abbrev pub ended : List Call → Ending → Attempt
ended calls ending = record { calls = calls; ending = ending }

abbrev pub before : List Call → Attempt → Attempt
before calls a = record a { calls = calls ++ a.calls }

abbrev pub rule_of : ℕ → Option String → Rule
rule_of i source = record { table = 200 + i; priority = 1200 + i; source = source }

abbrev pub fallback_of : ℕ → Option String → Rule
fallback_of i source = record { table = 400 + i; priority = 1300 + i; source = source }

module _ (number : ℕ → String) where
  abbrev pub tunnel_name : ℕ → String
  tunnel_name i = "ellaweb" <> number i

  module _ (network : Network) where
    -- A call, and what follows if it has no error.
    unfoldable pub try : Call → Attempt → Attempt
    try c later = elim (network.failure c) [
      | none ↦ before (c ∷ []) later
      | some err ↦ ended (c ∷ []) (failed err)
    ]

    -- From the look-up of the new link on.
    unfoldable pub route : ℕ → String → Lookup → Attempt
    unfolding try
    route i address (missing err) = ended [] (failed err)
    route i address (index l) = try (replace_route (200 + i) (link l)) (
        try (add_rule (rule_of i (network.parse_ip address))) (
          try (replace_route (400 + i) unreachable) (
            try (add_rule (fallback_of i (network.parse_ip address)))
              (ended (watch ∷ []) (attached address)))))

    unfoldable pub make_tunnel : ℕ → String → Attempt
    unfolding route
    make_tunnel i address =
        try (add_tunnel (tunnel_name i) (address <> "/32")) (route i address network.found)

    -- The removal of a link that is left over; its error is wrapped.
    unfoldable pub remove_stale : ℕ → Attempt → Attempt
    remove_stale i later = elim (network.failure (delete_link (tunnel_name i))) [
      | none ↦ before (delete_link (tunnel_name i) ∷ []) later
      | some err ↦
          ended (delete_link (tunnel_name i) ∷ [])
            (failed ("remove stale UE tunnel " <> tunnel_name i <> ": " <> err))
    ]

    -- What follows the request for the session; the errors of the first two calls are dropped.
    unfoldable pub after_session : ℕ → Session → Attempt
    unfolding remove_stale make_tunnel
    after_session i (refused err) = ended [] (failed err)
    after_session i (opened address) =
        let clean = make_tunnel i address in
        before
          (delete_rule (rule_of i (network.parse_ip address))
            ∷ delete_rule (fallback_of i (network.parse_ip address))
            ∷ [])
          (if network.stale then remove_stale i clean else clean)

    unfoldable pub attach_internet : ℕ → Attempt
    unfolding after_session
    attach_internet i = before (open_session ∷ []) (after_session i network.session)
