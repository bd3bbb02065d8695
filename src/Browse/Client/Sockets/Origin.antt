-- ===== src/Browse/Client/Sockets/Origin.antt =====
-- Where the sockets of the UE's web client come from and lead to.
use telco_helm_charts.Common.{
  String, true, false, ◌⊎◌, Option, none, some, List, [], ◌∷◌, ◌≡◌, inl, inr, refl, ap, subst, All,
  All-append, Bool-cases, Option-cases,
}
use telco_helm_charts.Sockets.{
  Local, tcp_addr, udp_addr, Socket, Kernel, DialFunction, Outcome, Names, fresh, open_socket,
}
use telco_helm_charts.Sockets.Opened.{Opens, open_socket-Opens, literal-Opens, all_sockets-All}
use telco_helm_charts.Browse.Address.{Addr, public_ip}
use telco_helm_charts.Browse.Client.{
  Lookup, failed, found, all_public, attempt, dial_found, dial_resolved, dial_host, dial_context,
  HostResult,
}
use telco_helm_charts.Browse.Client.Policy.{all_public-All}
use telco_helm_charts.Browse.Client.Sockets.{
  bind_of, dns_dial, from_phone, web_dialed, attempt_sockets, asked_sockets, host_of, port_of,
  Parts, has_prefix, web_dial,
}

-- How net reads and writes addresses: one that is joined to a port which `SplitHostPort` found is
-- split into the same two parts.
pub record IsStandard (names : Names) (show : Addr → String) : Type 0 where
  pub literal : (ip : Addr) → names.literal (show ip) ≡ true
  pub split :
      (address host port : String)
      → names.split address ≡ (none, (host, port))
      → (ip : Addr) → names.split (names.join (show ip) port) ≡ (none, (show ip, port))
  pub dns_literal : names.literal "8.8.8.8" ≡ true
  pub dns_split : names.split "8.8.8.8:53" ≡ (none, ("8.8.8.8", "53"))
  pub dns_join : names.join "8.8.8.8" "53" ≡ "8.8.8.8:53"

module _ (connects : Addr → Option String) where
  attempt-All :
      (P : Addr → Type 0) (ips : List Addr) (last : Option String)
      → All P ips
      → All P (attempt connects ips last).attempts
  unfolding attempt
  attempt-All P [] last h = tt
  attempt-All P (ip ∷ ips) last h = elim (Option-cases (connects ip)) [
    | inl e ↦ rw (e, attempt) (h.0, tt)
    | inr (err, e) ↦ rw (e, attempt) (h.0, attempt-All P ips (some err) h.1)
  ]

  dial_found-public :
      (ips : List Addr) → All (λ ip. public_ip ip ≡ true) (dial_found connects ips).attempts
  unfolding dial_found
  dial_found-public [] = tt
  dial_found-public (ip ∷ ips) = elim (Bool-cases (all_public (ip ∷ ips))) [
    | inl e ↦ rw e (attempt-All _ (ip ∷ ips) none (all_public-All (ip ∷ ips) e))
    | inr e ↦ rw e tt
  ]

  dial_resolved-public :
      (l : Lookup) → All (λ ip. public_ip ip ≡ true) (dial_resolved connects l).attempts
  unfolding dial_resolved
  dial_resolved-public (failed err) = tt
  dial_resolved-public (found ips) = dial_found-public ips

  dial_host-public :
      (lookup : String → Lookup) (host : HostResult)
      → All (λ ip. public_ip ip ≡ true) (dial_host lookup connects host).attempts
  unfolding dial_host
  dial_host-public lookup (some err, host) = tt
  dial_host-public lookup (none, host) = dial_resolved-public (lookup host)

-- The socket is bound to an address of the phone, for its kind.
abbrev pub IsFrom : (phone : String) → Socket → Type 0
IsFrom phone s =
    ((has_prefix s.network "tcp" ≡ true) × (s.local_address ≡ some (tcp_addr (some phone))))
    ⊎ ((has_prefix s.network "tcp" ≡ false) × (s.local_address ≡ some (udp_addr (some phone))))

-- A socket of the client: from the phone's address, to the DNS server or to a public address.
pub data IsOfPhone (names : Names) (show : Addr → String) (phone : String) (s : Socket)
    : Type 0 where
  for_dns : s.address ≡ "8.8.8.8:53" → IsFrom phone s → IsOfPhone names show phone s
  for_web :
      (ip : Addr) (port : String)
      → public_ip ip ≡ true
      → s.network ≡ "tcp4"
      → s.address ≡ names.join (show ip) port
      → s.local_address ≡ some (tcp_addr (some phone))
      → IsOfPhone names show phone s

module _ {names : Names} {show : Addr → String} (standard : IsStandard names show) (kernel : Kernel)
    (default_resolver : DialFunction) (source phone : String)
    (parsed : names.parse_ip source ≡ some phone) where
  from_phone-Opens :
      (l : Local) (network address : String)
      → IsOfPhone names show phone (fresh (from_phone default_resolver l) network address)
      → Opens
          (IsOfPhone names show phone)
          (open_socket kernel (from_phone default_resolver l) network address)
  unfolding from_phone
  from_phone-Opens l network address own =
      open_socket-Opens (IsOfPhone names show phone) kernel _ network address
        (λ t h. subst (IsOfPhone names show phone) (ap (λ r. r.1) h) own)

  bind_of-IsFrom :
      (network address : String)
      → IsFrom phone (
          fresh
            (from_phone default_resolver (bind_of (names.parse_ip source) network))
            network
            address)
  unfolding bind_of from_phone
  bind_of-IsFrom network address = rw parsed (elim (Bool-cases (has_prefix network "tcp")) [
    | inl e ↦ rw e (inl (refl, refl))
    | inr e ↦ rw e (inr (refl, refl))
  ])

  dns_dial-Opens :
      (network address : String)
      → Opens
          (IsOfPhone names show phone)
          (dns_dial names kernel default_resolver source network address)
  unfolding dns_dial
  dns_dial-Opens network address =
      literal-Opens (IsOfPhone names show phone) names kernel _ network "8.8.8.8:53" "8.8.8.8" "53"
        standard.dns_split standard.dns_literal
        (from_phone-Opens (bind_of (names.parse_ip source) network) network _
          (for_dns standard.dns_join (bind_of-IsFrom network (names.join "8.8.8.8" "53"))))

  web_dialed-Opens :
      (port : String) (ip : Addr)
      → names.split (names.join (show ip) port) ≡ (none, (show ip, port))
      → public_ip ip ≡ true
      → Opens
          (IsOfPhone names show phone)
          (web_dialed names kernel default_resolver source show port ip)
  unfolding web_dialed from_phone
  web_dialed-Opens port ip split public =
      literal-Opens (IsOfPhone names show phone) names kernel _ "tcp4" _ (show ip) port split
        (standard.literal ip)
        (from_phone-Opens (tcp_addr (names.parse_ip source)) "tcp4" _
          (for_web ip port public refl refl (ap (λ l. some (tcp_addr l)) parsed)))

  attempt_sockets-All :
      (port : String)
      → ((ip : Addr) → names.split (names.join (show ip) port) ≡ (none, (show ip, port)))
      → (ips : List Addr) → All (λ ip. public_ip ip ≡ true) ips
      → All
          (IsOfPhone names show phone)
          (attempt_sockets names kernel default_resolver source show port ips)
  unfolding attempt_sockets
  attempt_sockets-All port split [] h = tt
  attempt_sockets-All port split (ip ∷ ips) h =
      All-append (IsOfPhone names show phone) _ _ (web_dialed-Opens port ip (split ip) h.0).0
        (attempt_sockets-All port split ips h.1)

  asked_sockets-All :
      (parts : Option String × (String × String))
      → All (IsOfPhone names show phone) (asked_sockets names kernel default_resolver source parts)
  asked_sockets-All (some err, parts) = tt
  asked_sockets-All (none, (host, port)) =
      all_sockets-All (IsOfPhone names show phone) names _ (names.queries host) dns_dial-Opens

  web_sockets-All :
      (lookup : String → Lookup) (connects : Addr → Option String) (address : String)
      (parts : Parts)
      → names.split address ≡ parts
      → All (IsOfPhone names show phone) (
          attempt_sockets names kernel default_resolver source show
            (port_of parts)
            (dial_host lookup connects (host_of parts)).attempts)
  unfolding dial_host attempt_sockets
  web_sockets-All lookup connects address (some err, (host, port)) e = tt
  web_sockets-All lookup connects address (none, (host, port)) e =
      attempt_sockets-All port (standard.split address host port e) _
        (dial_host-public connects lookup (none, host))

  -- Whatever address the web client of a phone is asked for, and whatever the kernel and the DNS
  -- servers answer: if the phone's address is one that `net.ParseIP` reads, each socket that is
  -- connected on the way is bound to it, and it leads to 8.8.8.8:53 or, over TCP and IPv4, to an
  -- address that is public. Of net it is assumed that it splits an address that it has joined to a
  -- port which it found in an address.
  pub web_dial-AreOfPhone :
      (answer4 : String → List Outcome → Lookup) (address : String)
      → All
          (IsOfPhone names show phone)
          (web_dial names kernel default_resolver source show answer4 address).sockets
  unfolding web_dial dial_context
  web_dial-AreOfPhone answer4 address =
      All-append (IsOfPhone names show phone) _ _ (asked_sockets-All (names.split address))
        (web_sockets-All _ _ address (names.split address) refl)
