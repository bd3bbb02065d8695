-- ===== src/Sockets/Opened.antt =====
-- What holds of all sockets that a dialer opens.
use telco_helm_charts.Common.{
  String, true, Option, none, some, List, [], ◌∷◌, All, All-append, Bool-cases, refl, inl, inr, ◌≡◌,
}
use telco_helm_charts.Sockets.{
  Socket, Kernel, Outcome, connected, unconnected, Dialed, DialFunction, Dialer, Names, Lookup,
  failed, found, and_before, or_rest, fresh, outcome_of, after_control, open_socket, all_sockets,
  lookup, try_each, try_found, dial_host, dial_split, dial,
}

abbrev pub Ends : (Socket → Type 0) → Outcome → Type 0
Ends P (connected s) = P s
Ends P (unconnected err) = Unit

-- Each socket that was opened has a property, and the one of the connection too.
abbrev pub Opens : (Socket → Type 0) → Dialed → Type 0
Opens P d = All P d.sockets × Ends P d.outcome

module _ (P : Socket → Type 0) where
  Opens-before :
      (before : List Socket) (d : Dialed) → All P before → Opens P d → Opens P (and_before before d)
  Opens-before before d h (k, e) = (All-append P before d.sockets h k, e)

  outcome_of-Ends : (s : Socket) (err : Option String) → P s → Ends P (outcome_of s err)
  outcome_of-Ends s (some err) h = tt
  outcome_of-Ends s none h = h

  after_control-Opens :
      (kernel : Kernel) (r : Option String × Socket)
      → ((t : Socket) → r ≡ (none, t) → P t)
      → Opens P (after_control kernel r)
  after_control-Opens kernel (some err, s) own = (tt, tt)
  after_control-Opens kernel (none, s) own =
      ((own s refl, tt), outcome_of-Ends s (kernel.connect s) (own s refl))

  or_rest-Opens :
      (first : Dialed) (o : Outcome) (rest : String → Dialed)
      → Opens P first
      → ((err : String) → Opens P (rest err))
      → Opens P (or_rest first o rest)
  or_rest-Opens first (connected s) rest h k = h
  or_rest-Opens first (unconnected err) rest h k = Opens-before first.sockets (rest err) h.0 (k err)

  -- A socket is opened only if `Control` gives no error.
  pub open_socket-Opens :
      (kernel : Kernel) (d : Dialer) (network address : String)
      → ((t : Socket) → d.control (fresh d network address) ≡ (none, t) → P t)
      → Opens P (open_socket kernel d network address)
  unfolding open_socket
  open_socket-Opens kernel d network address own =
      after_control-Opens kernel (d.control (fresh d network address)) own

  module _ (names : Names) where
    pub all_sockets-All :
        (dial : DialFunction) (calls : List (String × String))
        → ((network address : String) → Opens P (dial network address))
        → All P (all_sockets names dial calls)
    unfolding all_sockets
    all_sockets-All dial [] h = tt
    all_sockets-All dial ((network, address) ∷ rest) h =
        All-append P (dial network address).sockets (all_sockets names dial rest)
          (h network address).0 (all_sockets-All dial rest h)

    -- For an IP address the resolver is not asked.
    pub literal-Opens :
        (kernel : Kernel) (d : Dialer) (network address host port : String)
        → names.split address ≡ (none, (host, port))
        → names.literal host ≡ true
        → Opens P (open_socket kernel d network (names.join host port))
        → Opens P (dial names kernel d network address)
    unfolding dial dial_host try_each
    literal-Opens kernel d network address host port split literal own =
        let first = open_socket kernel d network (names.join host port) in
        rw (split, literal) (or_rest-Opens first first.outcome _ own (λ err. (tt, tt)))

    module _ (kernel : Kernel) (d : Dialer) (network : String)
        (own : (address : String) → Opens P (open_socket kernel d network address))
        (asked : (network address : String) → Opens P (d.resolver network address)) where
      try_each-Opens :
          (port : String) (ips : List String) (last : String)
          → Opens P (try_each names kernel d network port ips last)
      unfolding try_each
      try_each-Opens port [] last = (tt, tt)
      try_each-Opens port (ip ∷ ips) last =
          let first = open_socket kernel d network (names.join ip port) in
          or_rest-Opens first first.outcome _ (own _) (λ err. try_each-Opens port ips err)

      try_found-Opens :
          (port : String) (l : Lookup) → Opens P (try_found names kernel d network port l)
      try_found-Opens port (failed err) = (tt, tt)
      try_found-Opens port (found ips) = try_each-Opens port ips _

      dial_host-Opens : (host port : String) → Opens P (dial_host names kernel d network host port)
      unfolding dial_host
      dial_host-Opens host port = elim (Bool-cases (names.literal host)) [
        | inl e ↦ rw e (try_each-Opens port (host ∷ []) "")
        | inr e ↦ rw e (
            Opens-before _ _ (all_sockets-All d.resolver (names.queries host) asked)
              (try_found-Opens port (lookup names d.resolver host)))
      ]

      dial_split-Opens :
          (parts : Option String × (String × String))
          → Opens P (dial_split names kernel d network parts)
      dial_split-Opens (some err, parts) = (tt, tt)
      dial_split-Opens (none, (host, port)) = dial_host-Opens host port

      pub dial-Opens : (address : String) → Opens P (dial names kernel d network address)
      unfolding dial
      dial-Opens address = dial_split-Opens (names.split address)
