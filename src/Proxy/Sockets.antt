-- ===== src/Proxy/Sockets.antt =====
-- images/5g-ue-http-proxy/main.go: `socketControl` and `newProxy`, by which every socket of the proxy
-- is bound to the UE's interface.
use telco_helm_charts.Common.{
  ℕ, String, true, Option, none, some, ◌≡◌, ◌⊎◌, inl, inr, refl, subst, ap, arith,
}
use telco_helm_charts.Sockets.{
  Socket, Kernel, Control, DialFunction, Dialer, Names, fresh, open_socket, dial,
}
use telco_helm_charts.Sockets.Opened.{Opens, open_socket-Opens, literal-Opens, dial-Opens}
use telco_helm_charts.Proxy.{Transport, new_transport}

-- SO_BINDTODEVICE on Linux.
abbrev pub bind_to_device : ℕ
bind_to_device = 25

-- The option is set within `RawConn.Control`, which may fail itself.
abbrev bound_if : (iface : String) → Option String → Control
bound_if iface (some err) s = (some err, s)
bound_if iface none s = (none, record s { device = some iface })

abbrev set_device : Kernel → (iface : String) → Option String → Control
set_device kernel iface (some err) s = (some err, s)
set_device kernel iface none s = bound_if iface (kernel.setsockopt bind_to_device iface s) s

unfoldable pub socket_control : Kernel → (iface : String) → Control
socket_control kernel iface s = set_device kernel iface (kernel.raw_control s) s

-- The struct `proxy`. `transport` has the limits of its transport; `dial_context` and `proxy` are the
-- fields `DialContext` and `Proxy` of that transport.
pub record State : Type 0 where
  pub iface : String
  pub dialer : Dialer
  pub transport : Transport
  pub dial_context : DialFunction
  pub proxy : Option String

module _ (names : Names) (kernel : Kernel) (default_resolver : DialFunction) where
  dns_dialer : (iface : String) → Dialer
  unfolding socket_control
  dns_dialer iface = record {
    local_address = none;
    control = socket_control kernel iface;
    resolver = default_resolver;
  }

  unfoldable pub new_proxy : (iface dns_server : String) → State
  unfolding socket_control dns_dialer
  new_proxy iface dns_server =
      let dialer : Dialer = record {
        local_address = none;
        control = socket_control kernel iface;
        resolver = λ network address. dial names kernel (dns_dialer iface) "udp" dns_server;
      } in
      record {
        iface = iface;
        dialer = dialer;
        transport = new_transport;
        dial_context = dial names kernel dialer;
        proxy = none;
      }

-- A socket of the proxy, for TCP or for the DNS server: the kernel has bound it to the interface.
pub record IsBound (kernel : Kernel) (iface dns_address : String) (s : Socket) : Type 0 where
  pub device : s.device ≡ some iface
  pub accepted : kernel.setsockopt bind_to_device iface (record s { device = none }) ≡ none
  pub purpose : (s.network ≡ "tcp") ⊎ ((s.network ≡ "udp") × (s.address ≡ dns_address))

module _ (kernel : Kernel) (iface dns_address : String) where
  -- What the purpose of a socket is.
  abbrev Serves : (network address : String) → Type 0
  Serves network address = (network ≡ "tcp") ⊎ ((network ≡ "udp") × (address ≡ dns_address))

  bound_if-IsBound :
      (d : Dialer) (network address : String) (t : Socket) (refused : Option String)
      → Serves network address
      → kernel.setsockopt bind_to_device iface (fresh d network address) ≡ refused
      → bound_if iface refused (fresh d network address) ≡ (none, t)
      → IsBound kernel iface dns_address t
  bound_if-IsBound d network address t (some err) purpose accepted h = ground arith
  bound_if-IsBound d network address t none purpose accepted h =
      subst (IsBound kernel iface dns_address) (ap (λ r. r.1) h)
        (record { device = refl; accepted = accepted; purpose = purpose })

  set_device-IsBound :
      (d : Dialer) (network address : String) (t : Socket) (raw : Option String)
      → Serves network address
      → set_device kernel iface raw (fresh d network address) ≡ (none, t)
      → IsBound kernel iface dns_address t
  set_device-IsBound d network address t (some err) purpose h = ground arith
  set_device-IsBound d network address t none purpose h =
      bound_if-IsBound d network address t _ purpose refl h

  socket-IsBound :
      (d : Dialer) (network address : String)
      → Serves network address
      → Opens
          (IsBound kernel iface dns_address)
          (open_socket kernel (record d { control = socket_control kernel iface }) network address)
  unfolding socket_control
  socket-IsBound d network address purpose =
      open_socket-Opens (IsBound kernel iface dns_address) kernel _ network address
        (λ t h. set_device-IsBound d network address t (kernel.raw_control _) purpose h)

-- Whatever address the proxy dials over TCP, for a tunnel or by its transport, and whatever the
-- kernel and the DNS servers answer: each socket that is connected on the way, and the one of the
-- connection, is one for TCP or one for UDP to the DNS server, and the kernel has bound it to the
-- UE's interface. The DNS server has to be given as an IP address with a port.
pub new_proxy-AreBound :
    (names : Names) (kernel : Kernel) (default_resolver : DialFunction)
    (iface dns_server dns_host dns_port address : String)
    → names.split dns_server ≡ (none, (dns_host, dns_port))
    → names.literal dns_host ≡ true
    → Opens (IsBound kernel iface (names.join dns_host dns_port)) (
        dial names kernel
          (new_proxy names kernel default_resolver iface dns_server).dialer
          "tcp"
          address)
unfolding new_proxy dns_dialer
new_proxy-AreBound names kernel default_resolver iface dns_server dns_host dns_port address split
      literal =
    let bound = IsBound kernel iface (names.join dns_host dns_port) in
    let dns = dns_dialer names kernel default_resolver iface in
    let dialer = (new_proxy names kernel default_resolver iface dns_server).dialer in
    dial-Opens bound names kernel dialer "tcp"
      (λ a. socket-IsBound kernel iface _ dialer "tcp" a (inl refl))
      (λ network a.
        literal-Opens bound names kernel dns "udp" dns_server dns_host dns_port split literal
          (socket-IsBound kernel iface _ dns "udp" _ (inr (refl, refl))))
      address
