-- ===== src/Proxy/Startup.antt =====
-- The start of images/5g-ue-http-proxy/main.go: `env`, `waitForInterface` and `main`. The network
-- interfaces are a parameter.
pub mod Waiting
use telco_helm_charts.Common.{
  ℕ, zero, suc, String, Bool, true, false, not, Option, none, some, List, [], ◌∷◌, if◌then◌else◌,
  ◌==◌,
}
use telco_helm_charts.Mode.{Environment}
use telco_helm_charts.Browse.Outline.Words.{trim_space}

unfoldable pub env : Environment → (name fallback : String) → String
unfolding trim_space
env getenv name fallback =
    let value = trim_space (getenv name) in if not (value == "") then value else fallback

-- A match of the pattern: the name of the interface, and its addresses unless they cannot be asked.
pub record Match : Type 0 where
  pub name : String
  pub addresses : Option (List String)

abbrev pub is_addressed : Option (List String) → Bool
is_addressed none = false
is_addressed (some []) = false
is_addressed (some (a ∷ rest)) = true

-- The loop over the matches.
unfoldable pub first_addressed : List Match → Option String
first_addressed [] = none
first_addressed (m ∷ ms) =
    let rest = first_addressed ms in if is_addressed m.addresses then some m.name else rest

-- The endless loop, for a number of polls; `polls n` are the matches that poll `n` finds.
unfoldable pub wait_from : (polls : ℕ → List Match) → (count n : ℕ) → Option String
unfolding first_addressed
wait_from polls zero n = none
wait_from polls (suc count) n =
    let later = wait_from polls count (suc n) in
    elim (first_addressed (polls n)) [ some name ↦ some name | none ↦ later ]

unfoldable pub wait_for_interface : (polls : ℕ → List Match) → (count : ℕ) → Option String
unfolding wait_from
wait_for_interface polls count = wait_from polls count 0

-- What the server is started with.
pub record Settings : Type 0 where
  pub listen_address : String
  pub interface : String
  pub dns_server : String

-- `matches` are the polls for a pattern; none if no interface is there in all of them.
unfoldable pub settings :
    Environment → (matches : String → ℕ → List Match) → (count : ℕ) → Option Settings
unfolding env wait_for_interface
settings getenv matches count =
    elim (wait_for_interface (matches (env getenv "UE_INTERFACE_PATTERN" "uesimtun*")) count) [
      | none ↦ none
      | some interface ↦ some (record {
        listen_address = env getenv "LISTEN_ADDRESS" "0.0.0.0:8118";
        interface = interface;
        dns_server = env getenv "DNS_SERVER" "1.1.1.1:53";
      })
    ]
