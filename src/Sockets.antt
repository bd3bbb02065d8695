-- ===== src/Sockets.antt =====
-- Sockets as the two programs open them with `net.Dialer` and `net.Resolver` of Go. The kernel, the
-- names and the answers of DNS servers are parameters. Deadlines
-- are not modelled, and addresses are tried one after the other, also where net tries two at a time.
pub mod Opened
pub mod Copy
use telco_helm_charts.Common.{
  ℕ, String, Bool, true, false, Option, none, some, List, [], ◌∷◌, ◌++◌, map, if◌then◌else◌,
}

-- `net.TCPAddr` or `net.UDPAddr` with an IP address; none is a nil address, which the kernel does not
-- bind a socket to.
pub data Local : Type 0 where
  tcp_addr udp_addr : Option String → Local

pub record Socket : Type 0 where
  pub network : String
  pub address : String
  pub local_address : Option Local
  pub device : Option String

-- An error is its text. `connect` binds the socket to its local address too, if it has one.
pub record Kernel : Type 0 where
  pub raw_control : Socket → Option String
  pub setsockopt : (option : ℕ) (value : String) → Socket → Option String
  pub connect : Socket → Option String

pub data Outcome : Type 0 where
  connected : Socket → Outcome
  unconnected : String → Outcome

-- The sockets for which the kernel was asked to connect, in order, and what came of it.
pub record Dialed : Type 0 where
  pub sockets : List Socket
  pub outcome : Outcome

-- A `Control` function: an error, and the socket after it.
abbrev pub Control : Type 0
Control = Socket → Option String × Socket

abbrev pub no_control : Control
no_control s = (none, s)

-- The `Dial` function of a resolver.
abbrev pub DialFunction : Type 0
DialFunction = (network address : String) → Dialed

pub record Dialer : Type 0 where
  pub local_address : Option Local
  pub control : Control
  pub resolver : DialFunction

pub data Lookup : Type 0 where
  failed : String → Lookup
  found : List String → Lookup

-- `split` is net.SplitHostPort, with an error or none; `literal` tells an IP address from a name,
-- and `parse_ip` is net.ParseIP, with none for nil;
-- `queries` are the calls of `Dial` that a resolver makes for a name, and `answer` is what it learns.
pub record Names : Type 0 where
  pub split : String → Option String × (String × String)
  pub join : (host port : String) → String
  pub literal : String → Bool
  pub parse_ip : String → Option String
  pub queries : String → List (String × String)
  pub answer : String → List Outcome → Lookup

abbrev pub undialed : String → Dialed
undialed err = record { sockets = []; outcome = unconnected err }

abbrev pub and_before : List Socket → Dialed → Dialed
and_before before d = record d { sockets = before ++ d.sockets }

abbrev pub or_rest : Dialed → Outcome → (String → Dialed) → Dialed
or_rest first (connected s) rest = first
or_rest first (unconnected err) rest = and_before first.sockets (rest err)

-- A new socket, before `Control`.
abbrev pub fresh : Dialer → (network address : String) → Socket
fresh d network address = record {
  network = network;
  address = address;
  local_address = d.local_address;
  device = none;
}

abbrev pub outcome_of : Socket → Option String → Outcome
outcome_of s (some err) = unconnected err
outcome_of s none = connected s

module _ (kernel : Kernel) where
  -- An error of `Control` ends the dial before the kernel connects.
  abbrev pub after_control : Option String × Socket → Dialed
  after_control (some err, s) = undialed err
  after_control (none, s) = record { sockets = s ∷ []; outcome = outcome_of s (kernel.connect s) }

  unfoldable pub open_socket : Dialer → (network address : String) → Dialed
  open_socket d network address = after_control (d.control (fresh d network address))

module _ (names : Names) where
  unfoldable pub all_sockets : DialFunction → List (String × String) → List Socket
  all_sockets dial [] = []
  all_sockets dial ((network, address) ∷ rest) =
      (dial network address).sockets ++ all_sockets dial rest

  unfoldable pub lookup : DialFunction → (host : String) → Lookup
  lookup dial host =
      names.answer host
        (map (λ (network, address). (dial network address).outcome) (names.queries host))

  module _ (kernel : Kernel) (d : Dialer) (network : String) where
    -- Addresses are tried in turn; `last` is the last error.
    unfoldable pub try_each : (port : String) → List String → (last : String) → Dialed
    unfolding open_socket
    try_each port [] last = undialed last
    try_each port (ip ∷ ips) last =
        let first = open_socket kernel d network (names.join ip port) in
        let rest = try_each port ips in or_rest first first.outcome rest

    abbrev pub try_found : (port : String) → Lookup → Dialed
    try_found port (failed err) = undialed err
    try_found port (found ips) = try_each port ips "no suitable address found"

    unfoldable pub dial_host : (host port : String) → Dialed
    unfolding try_each lookup all_sockets
    dial_host host port =
        if names.literal host
        then try_each port (host ∷ []) ""
        else and_before (all_sockets d.resolver (names.queries host))
            (try_found port (lookup d.resolver host))

    abbrev pub dial_split : Option String × (String × String) → Dialed
    dial_split (some err, parts) = undialed err
    dial_split (none, (host, port)) = dial_host host port

    -- `DialContext` of the dialer.
    unfoldable pub dial : (address : String) → Dialed
    unfolding dial_host
    dial address = dial_split (names.split address)
