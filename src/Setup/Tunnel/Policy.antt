-- ===== src/Setup/Tunnel/Policy.antt =====
-- When a phone's internet session is up, and that the phones do not touch each other's routes.
use telco_helm_charts.Common.{
  ℕ, ◌+◌, ◌<◌, String, false, Option, none, List, [], ◌∷◌, ◌++◌, All, ◌≡◌, ◌≢◌, ◌↔◌, ◌⊎◌, refl, ap,
  subst, arith, ◌<>◌, Bool-cases, inl, inr, if◌then◌else◌,
}
use telco_helm_charts.Setup.Tunnel.{
  Rule, link, unreachable, Call, open_session, delete_rule, delete_link, add_tunnel, replace_route,
  add_rule, watch, Lookup, missing, index, Session, refused, opened, Network, attached, Attempt,
  ended, rule_of, fallback_of, tunnel_name, try, route, make_tunnel, remove_stale, after_session,
  attach_internet,
}

module _ (number : ℕ → String) where
  -- A call that leaves the routes and the link of the phone at index `j` alone.
  abbrev pub IsForeign : ℕ → Rule → Type 0
  IsForeign j r =
      (r.table ≢ 200 + j) × (r.table ≢ 400 + j) × (r.priority ≢ 1200 + j) × (r.priority ≢ 1300 + j)

  abbrev pub IsApart : ℕ → Call → Type 0
  IsApart j open_session = Unit
  IsApart j (delete_rule r) = IsForeign j r
  IsApart j (add_rule r) = IsForeign j r
  IsApart j (delete_link name) = name ≢ tunnel_name number j
  IsApart j (add_tunnel name address) = name ≢ tunnel_name number j
  IsApart j (replace_route table t) = (table ≢ 200 + j) × (table ≢ 400 + j)
  IsApart j watch = Unit

  module _ (network : Network) where
    Apart : ℕ → Attempt → Type 0
    Apart j a = All (IsApart j) a.calls

    try-Apart :
        (j : ℕ) (c : Call) (later : Attempt)
        → IsApart j c
        → All (IsApart j) later.calls
        → All (IsApart j) (try number network c later).calls
    unfolding try
    try-Apart j c later h k = ground arith

    -- The two phones are different, and so are the names of their tunnels.
    module _ (i j : ℕ) (hi : i < 100) (hj : j < 100) (other : i ≢ j)
        (names : tunnel_name number i ≢ tunnel_name number j) where
      rules-IsForeign :
          (address : Option String)
          → IsForeign j (rule_of i address) × IsForeign j (fallback_of i address)
      rules-IsForeign address = omega arith

      route-Apart :
          (address : String) (found : Lookup)
          → All (IsApart j) (route number network i address found).calls
      unfolding route
      route-Apart address (missing err) = tt
      route-Apart address (index l) =
          let (rule, fallback) = rules-IsForeign (network.parse_ip address) in
          try-Apart j _ _ (rule.0, rule.1)
            (try-Apart j _ _ rule
              (try-Apart j _ _ (fallback.0, fallback.1) (try-Apart j _ _ fallback (tt, tt))))

      make_tunnel-Apart :
          (address : String) → All (IsApart j) (make_tunnel number network i address).calls
      unfolding make_tunnel
      make_tunnel-Apart address = try-Apart j _ _ names (route-Apart address network.found)

      remove_stale-Apart :
          (later : Attempt)
          → All (IsApart j) later.calls
          → All (IsApart j) (remove_stale number network i later).calls
      unfolding remove_stale
      remove_stale-Apart later h = ground arith

      after_session-Apart : (s : Session) → All (IsApart j) (after_session number network i s).calls
      unfolding after_session
      after_session-Apart (refused err) = tt
      after_session-Apart (opened address) =
          let (rule, fallback) = rules-IsForeign (network.parse_ip address) in
          elim (Bool-cases network.stale) [
            | inl e ↦ simp e (rule, (fallback, remove_stale-Apart _ (make_tunnel-Apart address)))
            | inr e ↦ simp e (rule, (fallback, make_tunnel-Apart address))
          ]

      -- Whatever happens while a phone is attached, no call touches a rule, a route or the tunnel of
      -- another phone, if both have an index below 100 and their tunnels have different names.
      pub attach_internet-IsApart : All (IsApart j) (attach_internet number network i).calls
      unfolding attach_internet
      attach_internet-IsApart = (tt, after_session-Apart network.session)

    -- No call fails whose error counts.
    pub record IsUp (i : ℕ) (address : String) : Type 0 where
      pub session : network.session ≡ opened address
      pub stale :
          (network.stale ≡ false) ⊎ (network.failure (delete_link (tunnel_name number i)) ≡ none)
      pub tunnel : network.failure (add_tunnel (tunnel_name number i) (address <> "/32")) ≡ none
      pub link_index : ℕ
      pub found : network.found ≡ index link_index
      pub routed : network.failure (replace_route (200 + i) (link link_index)) ≡ none
      pub ruled : network.failure (add_rule (rule_of i (network.parse_ip address))) ≡ none
      pub closed : network.failure (replace_route (400 + i) unreachable) ≡ none
      pub fallen : network.failure (add_rule (fallback_of i (network.parse_ip address))) ≡ none

    -- The calls of a phone that is up, in their order.
    abbrev pub up_calls : (i : ℕ) (address : String) (link_index : ℕ) → List Call
    up_calls i address l =
        open_session
          ∷ delete_rule (rule_of i (network.parse_ip address))
          ∷ delete_rule (fallback_of i (network.parse_ip address))
          ∷ (if network.stale then delete_link (tunnel_name number i) ∷ [] else [])
        ++ add_tunnel (tunnel_name number i) (address <> "/32")
          ∷ replace_route (200 + i) (link l)
          ∷ add_rule (rule_of i (network.parse_ip address))
          ∷ replace_route (400 + i) unreachable
          ∷ add_rule (fallback_of i (network.parse_ip address))
          ∷ watch
          ∷ []

    try-attached :
        (c : Call) (later : Attempt) (address : String)
        → (try number network c later).ending ≡ attached address
        → (network.failure c ≡ none) × (later.ending ≡ attached address)
    unfolding try
    try-attached c later address h = ground arith

    attach_internet-up :
        (i : ℕ) (address : String)
        → (u : IsUp i address)
        → attach_internet number network i
          ≡ ended (up_calls i address u.link_index) (attached address)
    unfolding attach_internet after_session remove_stale make_tunnel route try
    attach_internet-up i address u = ground arith

    -- From the look-up of the link on.
    IsRouted : (i : ℕ) (address : String) (l : ℕ) → Type 0
    IsRouted i address l =
        (network.failure (replace_route (200 + i) (link l)) ≡ none)
        × (network.failure (add_rule (rule_of i (network.parse_ip address))) ≡ none)
        × (network.failure (replace_route (400 + i) unreachable) ≡ none)
        × (network.failure (add_rule (fallback_of i (network.parse_ip address))) ≡ none)

    route-attached :
        (i : ℕ) (source address : String) (found : Lookup)
        → (route number network i source found).ending ≡ attached address
        → (source ≡ address) × ((l : ℕ) × (found ≡ index l) × IsRouted i source l)
    unfolding route IsRouted
    route-attached i source address (missing err) h = ground arith
    route-attached i source address (index l) h =
        let (routed, h1) = try-attached _ _ address h in
        let (ruled, h2) = try-attached _ _ address h1 in
        let (closed, h3) = try-attached _ _ address h2 in
        let (fallen, h4) = try-attached _ _ address h3 in
        (ground arith, (l, refl, (routed, ruled, closed, fallen)))

    remove_stale-attached :
        (i : ℕ) (later : Attempt) (address : String)
        → (remove_stale number network i later).ending ≡ attached address
        → (network.failure (delete_link (tunnel_name number i)) ≡ none)
          × (later.ending ≡ attached address)
    unfolding remove_stale
    remove_stale-attached i later address h = ground arith

    make_tunnel-IsUp :
        (i : ℕ) (source address : String)
        → network.session ≡ opened source
        → (network.stale ≡ false) ⊎ (network.failure (delete_link (tunnel_name number i)) ≡ none)
        → (make_tunnel number network i source).ending ≡ attached address
        → IsUp i address
    unfolding make_tunnel IsRouted
    make_tunnel-IsUp i source address e stale h =
        let (tunnel, made) = try-attached _ _ address h in
        let (same, (l, found, (routed, ruled, closed, fallen))) =
          route-attached i source address network.found made in
        subst (IsUp i) same (record {
          session = e;
          stale = stale;
          tunnel = tunnel;
          link_index = l;
          found = found;
          routed = routed;
          ruled = ruled;
          closed = closed;
          fallen = fallen;
        })

    after_session-IsUp :
        (i : ℕ) (address : String) (s : Session)
        → network.session ≡ s
        → (after_session number network i s).ending ≡ attached address
        → IsUp i address
    unfolding after_session
    after_session-IsUp i address (refused err) e h = ground arith
    after_session-IsUp i address (opened source) e h = elim (Bool-cases network.stale) [
      | inl stale ↦
          let (removed, made) = remove_stale-attached i _ address (simp stale at h) in
          make_tunnel-IsUp i source address e (inr removed) made
      | inr fresh ↦ make_tunnel-IsUp i source address e (inl fresh) (simp fresh at h)
    ]

    -- A phone's internet session is attached with an address exactly if the session is opened with it
    -- and no call fails but the removal of old rules, whose errors do not count: that of a tunnel that
    -- is left over, the new tunnel, the look-up of its link, the route through it and the rule for the
    -- address, and the fallback that makes everything else unreachable. It is attached exactly if,
    -- besides, these are all the calls that were made, in this order.
    pub attach_internet-attached_iff :
        (i : ℕ) (address : String)
        → (((attach_internet number network i).ending ≡ attached address) ↔ IsUp i address)
          × (((attach_internet number network i).ending ≡ attached address) ↔ (
              (u : IsUp i address) × (attach_internet number network i
                ≡ ended (up_calls i address u.link_index) (attached address))))
    unfolding attach_internet
    attach_internet-attached_iff i address =
        let up : (attach_internet number network i).ending ≡ attached address → IsUp i address =
          after_session-IsUp i address network.session refl in
        let calls = attach_internet-up i address in
        (
          (up, λ u. ap (λ (a : Attempt). a.ending) (calls u)),
          (λ h. (up h, calls (up h)), λ (u, e). ap (λ (a : Attempt). a.ending) e),
        )
