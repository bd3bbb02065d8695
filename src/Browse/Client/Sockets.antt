-- ===== src/Browse/Client/Sockets.antt =====
-- The sockets of `ueWebClient` of browse.go: its resolver and its `DialContext` on the dialers of net.
pub mod Origin
use telco_helm_charts.Common.{
  ℕ, String, Char, code, nat_eq, Bool, true, false, ◌&&◌, Option, none, some, List, [], ◌∷◌, ◌++◌,
  ◌≡◌, ◌⊎◌, inl, inr, refl, map, if◌then◌else◌, All, All-append, Bool-cases,
}
use telco_helm_charts.Sockets
use telco_helm_charts.Sockets.{
  Local, tcp_addr, udp_addr, Socket, Kernel, no_control, Outcome, connected, unconnected, Dialed,
  DialFunction, Dialer, Names, fresh, all_sockets, dial,
}
use telco_helm_charts.Browse.Address.{Addr, public_ip}
use telco_helm_charts.Browse.Client.{
  Lookup, failed, found, Dial, all_public, attempt, dial_found, dial_resolved, dial_host,
  dial_context, HostResult,
}

-- `strings.HasPrefix`
unfoldable pub has_prefix : (s prefix : String) → Bool
has_prefix s String.[] = true
has_prefix String.[] (String.◌∷◌ p prefix) = false
has_prefix (String.◌∷◌ c s) (String.◌∷◌ p prefix) = nat_eq (code c) (code p) && has_prefix s prefix

-- The phone's address as it was parsed, for the kind of the socket.
unfoldable pub bind_of : (parsed : Option String) → (network : String) → Local
unfolding has_prefix
bind_of parsed network = if has_prefix network "tcp" then tcp_addr parsed else udp_addr parsed

unfoldable pub from_phone : DialFunction → Local → Dialer
from_phone default_resolver address = record {
  local_address = some address;
  control = no_control;
  resolver = default_resolver;
}

abbrev error_of : Outcome → Option String
error_of (connected s) = none
error_of (unconnected err) = some err

-- What `DialContext` comes to, and the sockets that were opened.
pub record WebDial : Type 0 where
  pub dialled : Dial
  pub sockets : List Socket

-- The error, host and port of `net.SplitHostPort`.
abbrev pub Parts : Type 0
Parts = Option String × (String × String)

abbrev pub host_of : Parts → HostResult
host_of (err, (host, port)) = (err, host)

abbrev pub port_of : Parts → String
port_of (err, (host, port)) = port

module _ (names : Names) (kernel : Kernel) (default_resolver : DialFunction) (source : String) where
  -- The `Dial` function of the resolver.
  unfoldable pub dns_dial : DialFunction
  unfolding from_phone bind_of
  dns_dial network address =
      let d = from_phone default_resolver (bind_of (names.parse_ip source) network) in
      dial names kernel d network "8.8.8.8:53"

  abbrev pub asked_sockets : Parts → List Socket
  asked_sockets (some err, parts) = []
  asked_sockets (none, (host, port)) = all_sockets names dns_dial (names.queries host)

  -- `show` is `netip.Addr.String`.
  module _ (show : Addr → String) where
    unfoldable pub web_dialed : (port : String) → Addr → Dialed
    unfolding from_phone
    web_dialed port ip =
        let d = from_phone default_resolver (tcp_addr (names.parse_ip source)) in
        dial names kernel d "tcp4" (names.join (show ip) port)

    unfoldable pub attempt_sockets : (port : String) → List Addr → List Socket
    unfolding web_dialed
    attempt_sockets port [] = []
    attempt_sockets port (ip ∷ ips) = (web_dialed port ip).sockets ++ attempt_sockets port ips

    -- `answer4` is what the resolver learns of IPv4 addresses from the connections that it gets.
    module _ (answer4 : String → List Outcome → Lookup) where
      web_lookup : (host : String) → Lookup
      unfolding dns_dial
      web_lookup host =
          answer4 host
            (map (λ (network, address). (dns_dial network address).outcome) (names.queries host))

      -- `DialContext` of the transport.
      unfoldable pub web_dial : (address : String) → WebDial
      unfolding web_lookup web_dialed attempt_sockets dns_dial
      web_dial address =
          let parts = names.split address in
          let dialled =
            dial_context (λ a. host_of (names.split a)) web_lookup
              (λ ip. error_of (web_dialed (port_of parts) ip).outcome) address in
          record {
            dialled = dialled;
            sockets = asked_sockets parts ++ attempt_sockets (port_of parts) dialled.attempts;
          }
