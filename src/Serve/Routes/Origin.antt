-- ===== src/Serve/Routes/Origin.antt =====
-- Which requests can change the dashboard.
use telco_helm_charts.Common.{
  ℕ, zero, suc, String, Bool, [], if◌then◌else◌, true, false, ◌≡◌, ◌⊎◌, ◌≢◌, ◌==◌, some, inl, inr,
  refl, sym, subst, ◌∙◌, arith, eq_iff, Bool-cases,
}
use telco_helm_charts.Mode.{Environment}
use telco_helm_charts.Dashboard.State.{Dashboard}
use telco_helm_charts.Exec.{Env, State, Exec, pure, ◌>>=◌, observe, locked}
use telco_helm_charts.Action.{same_origin, action}
use telco_helm_charts.Browse.Handler.{browse}
use telco_helm_charts.Exec.View.{IsIdle}
use telco_helm_charts.Action.Refusals.{same_origin_cross}
use telco_helm_charts.Browser.Navigation.{navigate}
use telco_helm_charts.Snapshot.{Reading, infos, state}
use telco_helm_charts.Serve.Routes.{
  Surroundings, Request, Route, state_route, action_route, browse_route, availability_route,
  viewer_route, navigate_route, script_route, health_route, index_route, moved_route,
  method_refused, Reply, acted, browsed, navigated, no_method, moved, handle, respond, route,
  match_route, on_path, get_route, post_route,
}

-- A handler that changes nothing and starts no goroutine.
record Keeps {World A : Type 0} (m : Exec World A) : Type 0 where
  dash : (s : State World) → (m s).1.dash ≡ s.dash
  spawned : (s : State World) → (m s).1.spawned ≡ s.spawned

module _ {World : Type 0} where
  Keeps-pure : {A : Type 0} (a : A) → Keeps (pure {World = World} a)
  unfolding pure
  Keeps-pure a = record { dash = λ s. refl; spawned = λ s. refl }

  Keeps-bind :
      {A B : Type 0} (m : Exec World A) (f : A → Exec World B)
      → Keeps m
      → ((a : A) → Keeps (f a))
      → Keeps (m >>= f)
  unfolding ◌>>=◌
  Keeps-bind m f hm hf = record {
    dash = λ s. (hf (m s).0).dash (m s).1 ∙ hm.dash s;
    spawned = λ s. (hf (m s).0).spawned (m s).1 ∙ hm.spawned s;
  }

  module _ {env : Env World} (idle : IsIdle env) where
    Keeps-read : {A : Type 0} (f : World → Dashboard → A) → Keeps (locked env (λ w d. (f w d, d)))
    unfolding locked
    Keeps-read f = record { dash = λ s. idle.alone s.dash s.world; spawned = λ s. refl }

    Keeps-observe : {A : Type 0} (f : World → A) → Keeps (observe env f)
    unfolding observe
    Keeps-observe f = record { dash = λ s. refl; spawned = λ s. refl }

    infos-Keeps :
        (reading : Reading World) (getenv : Environment) (i n : ℕ)
        → Keeps (infos env reading getenv i n)
    unfolding infos
    infos-Keeps reading getenv i zero = Keeps-pure _
    infos-Keeps reading getenv i (suc n) =
        Keeps-bind _ _ (Keeps-read _)
          λ here. Keeps-bind _ _ (infos-Keeps reading getenv (suc i) n) (λ rest. Keeps-pure _)

    state-Keeps :
        (reading : Reading World) (getenv : Environment) → Keeps (state env reading getenv)
    unfolding state
    state-Keeps reading getenv = Keeps-bind _ _ (Keeps-read _) λ d.
        Keeps-bind _ _ (infos-Keeps reading getenv 0 _)
          λ phones. Keeps-bind _ _ (Keeps-observe _) (λ now. Keeps-pure _)

-- A request that may change the dashboard.
abbrev pub MayChange : {World : Type 0} → Surroundings World → Request → Type 0
MayChange around r =
    (r.method ≡ "POST")
    × ((r.path ≡ "/api/action") ⊎ (r.path ≡ "/api/browse"))
    × (same_origin around.parse_host r.origin r.host ≡ true)

-- What a refused POST is answered. The two endpoints that change the dashboard answer 403; so does
-- that of the browser, which has then done nothing, or it answers 409 if the browser is disabled. No
-- other path takes a POST, and a path that is not clean is redirected to the clean one.
abbrev pub IsRefused : {World : Type 0} → Surroundings World → Request → Reply → Type 0
IsRefused around r (acted a) = (r.path ≡ "/api/action") × (a.status ≡ 403)
IsRefused around r (browsed a) = (r.path ≡ "/api/browse") × (a.status ≡ 403)
IsRefused around r (navigated o) =
    (r.path ≡ "/api/browser/navigate")
    × (((around.getenv "BROWSER_ENABLED" ≡ "true")
          × (o ≡ record { effects = []; status = 403; text = "same-origin requests only" }))
        ⊎ ((around.getenv "BROWSER_ENABLED" ≢ "true")
            × (o ≡ record { effects = []; status = 409; text = "browser disabled" })))
IsRefused around r no_method =
    (r.path ≢ "/api/action") × (r.path ≢ "/api/browse") × (r.path ≢ "/api/browser/navigate")
IsRefused around r (moved to) = (around.clean r.path ≢ r.path) × (to ≡ around.clean r.path)
IsRefused around r _ = ⊥

module _ (clean : String → String) where
  route-action_route :
      (method path : String)
      → route clean method path ≡ action_route
      → (method ≡ "POST") × (path ≡ "/api/action")
  unfolding route match_route get_route post_route
  route-action_route method path h =
      ground
        (arith, eq_iff method "POST", eq_iff (clean path) "/api/action", eq_iff (clean path) path)

  route-browse_route :
      (method path : String)
      → route clean method path ≡ browse_route
      → (method ≡ "POST") × (path ≡ "/api/browse")
  unfolding route match_route get_route post_route
  route-browse_route method path h =
      ground
        (arith, eq_iff method "POST", eq_iff (clean path) "/api/browse", eq_iff (clean path) path)

  -- The routes of a POST, with the paths that they are for.
  abbrev IsPost : (path : String) → Route → Type 0
  IsPost path action_route = path ≡ "/api/action"
  IsPost path browse_route = path ≡ "/api/browse"
  IsPost path navigate_route = path ≡ "/api/browser/navigate"
  IsPost path method_refused =
      (path ≢ "/api/action") × (path ≢ "/api/browse") × (path ≢ "/api/browser/navigate")
  IsPost path (moved_route to) = (clean path ≢ path) × (to ≡ clean path)
  IsPost path _ = ⊥

  post_route-IsPost : (path : String) → IsPost path (on_path path path (post_route path))
  unfolding post_route
  post_route-IsPost path =
      let same : (path == path) ≡ true = (eq_iff path path).1 refl in
      elim (Bool-cases (path == "/api/action")) [
        | inl e ↦ rw (e, same) ((eq_iff _ _).0 e)
        | inr e ↦ rw e (elim (Bool-cases (path == "/api/browse")) [
          | inl f ↦ rw (f, same) ((eq_iff _ _).0 f)
          | inr f ↦ rw f (elim (Bool-cases (path == "/api/browser/navigate")) [
            | inl g ↦ rw (g, same) ((eq_iff _ _).0 g)
            | inr g ↦
                rw (g, same)
                  (ground (
                    arith,
                    eq_iff path "/api/action",
                    eq_iff path "/api/browse",
                    eq_iff path "/api/browser/navigate",
                  ))
          ])
        ])
      ]

  post_moved :
      (path cleaned : String)
      → (cleaned == path) ≡ false
      → on_path path cleaned (post_route cleaned) ≡ moved_route cleaned
  unfolding post_route
  post_moved path cleaned other = ground arith

  route-IsPost : (method path : String) → method ≡ "POST" → IsPost path (route clean method path)
  unfolding route match_route
  route-IsPost method path e =
      subst (λ m. IsPost path (route clean m path)) (sym e)
        (elim (Bool-cases (clean path == path)) [
          | inl same ↦ rw ((eq_iff (clean path) path).0 same) (post_route-IsPost path)
          | inr other ↦
              let differs : clean path ≢ path = ground (arith, eq_iff (clean path) path) in
              rw (post_moved path (clean path) other) (differs, refl)
        ])

module _ {World : Type 0} (env : Env World) (around : Surroundings World) where
  -- A handler that checks the origin does nothing if the check fails.
  Keeps-refusal :
      {A : Type 0} (b : Bool) (m : Exec World A) (a : A)
      → b ≡ false
      → Keeps (if b then m else pure a)
  Keeps-refusal b m a e = rw e (Keeps-pure a)

  handle-Keeps :
      (idle : IsIdle env) (p : Route) (r : Request)
      → p ≡ route around.clean r.method r.path
      → Keeps (handle env around p r) ⊎ MayChange around r
  handle-Keeps idle state_route r e =
      inl (Keeps-bind _ _ (state-Keeps idle around.reading around.getenv) (λ i. Keeps-pure _))
  handle-Keeps idle action_route r e =
      elim (Bool-cases (same_origin around.parse_host r.origin r.host)) [
        | inl same ↦
            let (post, path) = route-action_route around.clean r.method r.path (sym e) in
            inr (post, inl path, same)
        | inr foreign ↦
            inl (Keeps-bind _ _ (unfold action in Keeps-refusal _ _ _ foreign) (λ a. Keeps-pure _))
      ]
  handle-Keeps idle browse_route r e =
      elim (Bool-cases (same_origin around.parse_host r.origin r.host)) [
        | inl same ↦
            let (post, path) = route-browse_route around.clean r.method r.path (sym e) in
            inr (post, inr path, same)
        | inr foreign ↦
            inl (Keeps-bind _ _ (unfold browse in Keeps-refusal _ _ _ foreign) (λ a. Keeps-pure _))
      ]
  handle-Keeps idle availability_route r e = inl (Keeps-pure _)
  handle-Keeps idle viewer_route r e = inl (Keeps-pure _)
  handle-Keeps idle navigate_route r e = inl (Keeps-pure _)
  handle-Keeps idle script_route r e = inl (Keeps-pure _)
  handle-Keeps idle health_route r e = inl (Keeps-pure _)
  handle-Keeps idle index_route r e = inl (Keeps-pure _)
  handle-Keeps idle (moved_route to) r e = inl (Keeps-pure _)
  handle-Keeps idle method_refused r e = inl (Keeps-pure _)

  handle-IsRefused :
      (p : Route) (r : Request) (s : State World)
      → IsPost around.clean r.path p
      → same_origin around.parse_host r.origin r.host ≡ false
      → IsRefused around r (handle env around p r s).0 × ((handle env around p r s).1 ≡ s)
  unfolding pure ◌>>=◌ action browse navigate
  handle-IsRefused action_route r s post foreign = rw foreign ((post, refl), refl)
  handle-IsRefused browse_route r s post foreign = rw foreign ((post, refl), refl)
  handle-IsRefused navigate_route r s post foreign =
      elim (Bool-cases (around.getenv "BROWSER_ENABLED" == "true")) [
        | inl e ↦ rw (e, foreign) ((post, inl ((eq_iff _ _).0 e, refl)), refl)
        | inr e ↦
            let disabled : around.getenv "BROWSER_ENABLED" ≢ "true" =
              ground (arith, eq_iff (around.getenv "BROWSER_ENABLED") "true") in
            rw e ((post, inr (disabled, refl)), refl)
      ]
  handle-IsRefused state_route r s post foreign = elim post [ ]
  handle-IsRefused availability_route r s post foreign = elim post [ ]
  handle-IsRefused viewer_route r s post foreign = elim post [ ]
  handle-IsRefused script_route r s post foreign = elim post [ ]
  handle-IsRefused health_route r s post foreign = elim post [ ]
  handle-IsRefused index_route r s post foreign = elim post [ ]
  handle-IsRefused (moved_route to) r s post foreign = (post, refl)
  handle-IsRefused method_refused r s post foreign = (post, refl)

  -- If the other goroutines leave the dashboard alone, a request leaves it as it was, and starts no
  -- goroutine, unless it is a POST of /api/action or /api/browse with no Origin header or with one
  -- of the requested host.
  pub respond-keeps :
      IsIdle env
      → (r : Request) (s : State World)
      → (((respond env around r s).1.dash ≡ s.dash)
          × ((respond env around r s).1.spawned ≡ s.spawned))
        ⊎ MayChange around r
  unfolding respond
  respond-keeps idle r s = elim (handle-Keeps idle (route around.clean r.method r.path) r refl) [
    | inl keeps ↦ inl (keeps.dash s, keeps.spawned s)
    | inr may ↦ inr may
  ]

  -- A POST with an Origin header that cannot be parsed or whose host is not the requested one changes
  -- neither the state nor the world and drives no browser. It is answered with status 403 at
  -- /api/action and /api/browse; at /api/browser/navigate with 403, or with 409 if the browser is
  -- disabled; with a redirect to the clean path where the path is not clean; and with 405 elsewhere.
  pub respond-cross_origin :
      (r : Request) (s : State World)
      → r.method ≡ "POST"
      → r.origin ≢ ""
      → around.parse_host r.origin ≢ some r.host
      → IsRefused around r (respond env around r s).0 × ((respond env around r s).1 ≡ s)
  unfolding respond
  respond-cross_origin r s post origin host =
      handle-IsRefused (route around.clean r.method r.path) r s
        (route-IsPost around.clean r.method r.path post)
        (same_origin_cross around.parse_host r.origin r.host origin host)
