-- ===== src/Browse/Client/Policy.antt =====
-- What the UE's web client may reach.
use Prim.Native.String.{len}
use telco_helm_charts.Common.{
  ◌≤◌, String, true, false, Option, none, some, List, [], ◌∷◌, ◌++◌, length, eq_iff, ◌≡◌, ◌≢◌, ◌↔◌,
  ◌⊎◌, inl, inr, refl, arith, All, All-append, ap, subst, Bool-cases, length-append, Option-cases,
}
use telco_helm_charts.Browse.Address.{Addr, public_ip}
use telco_helm_charts.Browse.Client.{
  Url, rejected, allowed, public_web_url, Lookup, failed, found, connection, Dial, all_public,
  attempt, dial_found, dial_resolved, dial_host, dial_context, HostResult, check_redirect, follow,
}

-- A URL that the client may request.
pub record IsAllowed (u : Url) : Type 0 where
  pub host : u.hostname ≢ ""
  pub user : u.has_user ≡ false
  pub scheme : (u.scheme ≡ "http") ⊎ (u.scheme ≡ "https")
  pub port : (u.port ≡ "") ⊎ (u.port ≡ "80") ⊎ (u.port ≡ "443")

-- A text is accepted, as the URL that it parses to, exactly if it has at most 2048 bytes and parses
-- to a URL with a host, without credentials, of scheme http or https and with no port, 80 or 443.
pub public_web_url_iff :
    (parse : String → Option Url) (raw : String) (u : Url)
    → (public_web_url parse raw ≡ allowed u)
      ↔ ((len raw ≤ 2048) × (parse raw ≡ some u) × IsAllowed u)
unfolding public_web_url
public_web_url_iff parse raw u = ground (
  arith,
  eq_iff u.hostname "",
  eq_iff u.scheme "http",
  eq_iff u.scheme "https",
  eq_iff u.port "",
  eq_iff u.port "80",
  eq_iff u.port "443",
)

pub all_public-All : (ips : List Addr) → all_public ips ≡ true → All (λ ip. public_ip ip ≡ true) ips
unfolding all_public
all_public-All [] h = tt
all_public-All (ip ∷ ips) h = ground (arith, all_public-All ips)

-- The attempts are the first of the addresses.
attempt_order :
    (connects : Addr → Option String) (ips : List Addr) (last : Option String)
    → (rest : List Addr) × (ips ≡ (attempt connects ips last).attempts ++ rest)
unfolding attempt
attempt_order connects [] last = ([], refl)
attempt_order connects (ip ∷ ips) last = elim (Option-cases (connects ip)) [
  | inl e ↦ rw (e, attempt) (ips, refl)
  | inr (err, e) ↦
      let (rest, h) = attempt_order connects ips (some err) in
      rw (e, attempt) (rest, ap (λ l. ip ∷ l) h)
]

-- The first address that can be connected to, and those before it.
pub record IsFirst (connects : Addr → Option String) (ips : List Addr) (a : Addr) : Type 0 where
  pub before : List Addr
  pub after : List Addr
  pub order : ips ≡ before ++ a ∷ after
  pub failing : All (λ ip. connects ip ≢ none) before
  pub connects_to : connects a ≡ none

attempt-IsFirst :
    (connects : Addr → Option String) (ips : List Addr) (last : Option String) (a : Addr)
    → (attempt connects ips last).result ≡ connection a
    → IsFirst connects ips a
unfolding attempt
attempt-IsFirst connects [] last a h = cc
attempt-IsFirst connects (ip ∷ ips) last a h = elim (Option-cases (connects ip)) [
  | inl e ↦
      let same : ip ≡ a = ground arith in
      record {
        before = [];
        after = ips;
        order = ap (λ x. x ∷ ips) same;
        failing = tt;
        connects_to = subst (λ x. connects x ≡ none) same e;
      }
  | inr (err, e) ↦
      let r = attempt-IsFirst connects ips (some err) a (rw (e, attempt) at h) in
      record {
        before = ip ∷ r.before;
        after = r.after;
        order = ap (λ l. ip ∷ l) r.order;
        failing = ((λ k. ground arith), r.failing);
        connects_to = r.connects_to;
      }
]

abbrev IsCareful : List Addr → Dial → Type 0
IsCareful ips d =
    ((d.attempts ≡ []) ⊎ All (λ ip. public_ip ip ≡ true) ips)
    × ((rest : List Addr) × (ips ≡ d.attempts ++ rest))

dial_found-IsCareful :
    (connects : Addr → Option String) (ips : List Addr) → IsCareful ips (dial_found connects ips)
unfolding dial_found
dial_found-IsCareful connects [] = (inl refl, ([], refl))
dial_found-IsCareful connects (ip ∷ ips) = elim (Bool-cases (all_public (ip ∷ ips))) [
  | inl e ↦ rw e (inr (all_public-All (ip ∷ ips) e), attempt_order connects (ip ∷ ips) none)
  | inr e ↦ rw e (inl refl, (ip ∷ ips, refl))
]

dial_host-IsCareful :
    (lookup : String → Lookup) (connects : Addr → Option String) (host : HostResult)
    (ips : List Addr)
    → lookup host.1 ≡ found ips
    → IsCareful ips (dial_host lookup connects host)
unfolding dial_host
dial_host-IsCareful lookup connects (some err, host) ips h = (inl refl, (ips, refl))
dial_host-IsCareful lookup connects (none, host) ips h =
    rw h (unfold dial_resolved in dial_found-IsCareful connects ips)

abbrev Reached :
    (lookup : String → Lookup) (connects : Addr → Option String) → String → Addr → Type 0
Reached lookup connects host a =
    (ips : List Addr) × (lookup host ≡ found ips) × IsFirst connects ips a × (public_ip a ≡ true)

member-public :
    (P : Addr → Type 0) (before after : List Addr) (a : Addr) → All P (before ++ a ∷ after) → P a
member-public P [] after a h = h.0
member-public P (b ∷ before) after a h = member-public P before after a h.1

dial_found-IsFirst :
    (connects : Addr → Option String) (ips : List Addr) (a : Addr)
    → (dial_found connects ips).result ≡ connection a
    → IsFirst connects ips a × (public_ip a ≡ true)
unfolding dial_found
dial_found-IsFirst connects [] a h = cc
dial_found-IsFirst connects (ip ∷ ips) a h = elim (Bool-cases (all_public (ip ∷ ips))) [
  | inl e ↦
      let r = attempt-IsFirst connects (ip ∷ ips) none a (rw e at h) in
      (r, member-public _ r.before r.after a (subst (All _) r.order (all_public-All (ip ∷ ips) e)))
  | inr e ↦ ground arith
]

dial_resolved-IsFirst :
    (connects : Addr → Option String) (result : Lookup) (a : Addr)
    → (dial_resolved connects result).result ≡ connection a
    → (ips : List Addr) × (result ≡ found ips) × IsFirst connects ips a × (public_ip a ≡ true)
unfolding dial_resolved
dial_resolved-IsFirst connects (failed err) a h = cc
dial_resolved-IsFirst connects (found ips) a h =
    let (first, public) = dial_found-IsFirst connects ips a h in (ips, refl, first, public)

dial_host-IsFirst :
    (lookup : String → Lookup) (connects : Addr → Option String) (host : HostResult) (a : Addr)
    → (dial_host lookup connects host).result ≡ connection a
    → Reached lookup connects host.1 a
unfolding dial_host
dial_host-IsFirst lookup connects (some err, host) a h = cc
dial_host-IsFirst lookup connects (none, host) a h =
    dial_resolved-IsFirst connects (lookup host) a h

module _ (split : String → HostResult) (lookup : String → Lookup) (connects : Addr → Option String)
    (address : String) where
  -- If the host is resolved, the transport dials its addresses in the resolver's order, and it
  -- dials none of them unless all of them are public.
  dial_context_guarded :
      (ips : List Addr)
      → lookup (split address).1 ≡ found ips
      → (((dial_context split lookup connects address).attempts ≡ [])
          ⊎ All (λ ip. public_ip ip ≡ true) ips)
        × ((rest : List Addr) × (ips
              ≡ (dial_context split lookup connects address).attempts ++ rest))
  unfolding dial_context
  dial_context_guarded ips h = dial_host-IsCareful lookup connects (split address) ips h

  -- If the transport gets a connection, the host was resolved, and the connection is to a
  -- public address: the first one, in the resolver's order, that can be connected to.
  pub dial_context-IsFirst :
      (a : Addr)
      → (dial_context split lookup connects address).result ≡ connection a
      → (ips : List Addr) × (lookup (split address).1 ≡ found ips)
        × IsFirst connects ips a
        × (public_ip a ≡ true)
  unfolding dial_context
  dial_context-IsFirst a h = dial_host-IsFirst lookup connects (split address) a h

length-follow :
    (parse : String → Option Url) (via targets : List String)
    → length via ≤ 5
    → length (follow parse via targets) ≤ 5
unfolding follow
length-follow parse via [] h = h
length-follow parse via (target ∷ targets) h =
    ground
      (arith, length-follow parse (via ++ target ∷ []) targets, length-append via (target ∷ []))

abbrev pub Passes : (parse : String → Option Url) → String → Type 0
Passes parse target = (u : Url) × (public_web_url parse target ≡ allowed u)

passes :
    (parse : String → Option Url) (via : List String) (target : String)
    → check_redirect parse target via ≡ none
    → Passes parse target
unfolding check_redirect
passes parse via target h =
    elim (public_web_url parse target)
        as (λ c. public_web_url parse target ≡ c → Passes parse target) [
          | rejected err ↦ λ e. ground arith
          | allowed u ↦ λ e. (u, e)
        ]
      refl

follow-Passes :
    (parse : String → Option Url) (via targets : List String)
    → All (Passes parse) via
    → All (Passes parse) (follow parse via targets)
unfolding follow
follow-Passes parse via [] h = h
follow-Passes parse via (target ∷ targets) h =
    checked (check_redirect parse target via) refl
      (λ k. follow-Passes parse (via ++ target ∷ []) targets k)
  where
    checked :
        (c : Option String)
        → check_redirect parse target via ≡ c
        → (All (Passes parse) (via ++ target ∷ [])
            → All (Passes parse) (follow parse (via ++ target ∷ []) targets))
        → All
            (Passes parse)
            (elim c [ some err ↦ via | none ↦ follow parse (via ++ target ∷ []) targets ])
    checked none e further =
        further (All-append _ via (target ∷ []) h (passes parse via target e, tt))
    checked (some err) e further = h

-- Whatever the servers answer, a request that starts at a URL that is allowed leads to at most
-- five requests, each of them to a URL that is allowed.
pub follow_policy :
    (parse : String → Option Url) (start : String) (targets : List String) {u : Url}
    → public_web_url parse start ≡ allowed u
    → (length (follow parse (start ∷ []) targets) ≤ 5)
      × All
          (λ target. (v : Url) × (public_web_url parse target ≡ allowed v))
          (follow parse (start ∷ []) targets)
follow_policy parse start targets {u} h = (
  length-follow parse (start ∷ []) targets (omega arith),
  follow-Passes parse (start ∷ []) targets ((u, h), tt),
)
