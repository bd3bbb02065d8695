-- ===== src/Browse/Client.antt =====
-- `publicWebURL` and `ueWebClient` of browse.go. The parser of net/url, the resolver and the dialer
-- are parameters; an error is its text.
pub mod Policy
pub mod Sockets
use Prim.Native.String.{len}
use telco_helm_charts.Common.{
  ℕ, String, Bool, true, false, not, ◌&&◌, ◌||◌, Option, none, some, List, [], ◌∷◌, ◌++◌, length,
  ltb, leb, if◌then◌else◌, ◌==◌, ◌<>◌,
}
use telco_helm_charts.Browse.Address.{Addr, public_ip}

-- What the program reads of a `url.URL`: `Scheme`, `Hostname()`, `Port()`, and whether `User` is set.
pub record Url : Type 0 where
  pub scheme : String
  pub hostname : String
  pub port : String
  pub has_user : Bool

pub data Checked : Type 0 where
  rejected : String → Checked
  allowed : Url → Checked

check_port : Url → Checked
check_port u =
    if not (u.port == "") && not (u.port == "80") && not (u.port == "443")
    then rejected "only public HTTP/HTTPS ports are supported"
    else allowed u

abbrev pub not_public : String
not_public = "enter a public http:// or https:// URL without credentials"

check_parsed : Option Url → Checked
unfolding check_port
check_parsed none = rejected not_public
check_parsed (some u) =
    if u.hostname == "" || u.has_user || (not (u.scheme == "http") && not (u.scheme == "https"))
    then rejected not_public
    else check_port u

-- `publicWebURL`
unfoldable pub public_web_url : (parse : String → Option Url) → String → Checked
unfolding check_parsed
public_web_url parse raw =
    if ltb 2048 (len raw) then rejected "URL is too long" else check_parsed (parse raw)

pub data Lookup : Type 0 where
  failed : String → Lookup
  found : List Addr → Lookup

-- `nil, err` is `no_connection`; `last` is nil if there was no attempt.
pub data Dialled : Type 0 where
  connection : Addr → Dialled
  no_connection : Option String → Dialled

-- The addresses that were dialled, in order, and the result.
pub record Dial : Type 0 where
  pub attempts : List Addr
  pub result : Dialled

-- The first loop: whether every address is public.
unfoldable pub all_public : List Addr → Bool
all_public [] = true
all_public (ip ∷ ips) = if not (public_ip ip) then false else all_public ips

-- The second loop. `connects` has the error of an attempt, or none if it succeeds.
unfoldable pub attempt : (connects : Addr → Option String) → List Addr → Option String → Dial
attempt connects [] last = record { attempts = []; result = no_connection last }
attempt connects (ip ∷ ips) last = elim (connects ip) [
  | none ↦ record { attempts = ip ∷ []; result = connection ip }
  | some err ↦
      let rest = attempt connects ips (some err) in
      record { attempts = ip ∷ rest.attempts; result = rest.result }
]

abbrev pub no_attempt : String → Dial
no_attempt err = record { attempts = []; result = no_connection (some err) }

abbrev pub is_empty : List Addr → Bool
is_empty [] = true
is_empty (ip ∷ ips) = false

-- `DialContext` of the transport. `address` is what `net.SplitHostPort` gives: an error, or a host.
unfoldable pub dial_found : (connects : Addr → Option String) → List Addr → Dial
dial_found connects ips =
    if is_empty ips
    then no_attempt "no IPv4 address found"
    else if all_public ips
    then attempt connects ips none
    else no_attempt "private and special-use destinations are not supported"

unfoldable pub dial_resolved : (connects : Addr → Option String) → Lookup → Dial
dial_resolved connects (failed err) = no_attempt ("UE DNS: " <> err)
dial_resolved connects (found ips) = dial_found connects ips

-- An error, and the host.
abbrev pub HostResult : Type 0
HostResult = Option String × String

unfoldable pub dial_host :
    (lookup : String → Lookup) (connects : Addr → Option String) → HostResult → Dial
dial_host lookup connects (some err, host) = no_attempt err
dial_host lookup connects (none, host) = dial_resolved connects (lookup host)

unfoldable pub dial_context :
    (split : String → HostResult) (lookup : String → Lookup) (connects : Addr → Option String)
    → String
    → Dial
unfolding dial_host dial_resolved dial_found
dial_context split lookup connects address = dial_host lookup connects (split address)

-- `CheckRedirect`: an error, or none. `via` are the requests made so far.
unfoldable pub check_redirect : (parse : String → Option Url) → String → List String → Option String
check_redirect parse target via =
    if leb 5 (length via)
    then some "too many redirects"
    else elim (public_web_url parse target) [ rejected err ↦ some err | allowed u ↦ none ]

-- The requests of one `client.Do`, as net/http makes them: each answer in turn redirects to the
-- next target, which is requested if `CheckRedirect` gives no error.
unfoldable pub follow : (parse : String → Option Url) → List String → List String → List String
unfolding check_redirect
follow parse via [] = via
follow parse via (target ∷ targets) =
    let further = follow parse (via ++ target ∷ []) targets in
    elim (check_redirect parse target via) [ some err ↦ via | none ↦ further ]
