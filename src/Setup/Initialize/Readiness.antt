-- ===== src/Setup/Initialize/Readiness.antt =====
-- How the set-up ends: which phones there are, and whether it is ready.
use telco_helm_charts.Common.{
  ℕ, suc, String, true, false, Option, none, some, List, [], ◌∷◌, ◌++◌, map, take, ◌≡◌, ◌⊎◌, inl,
  inr, refl, sym, subst, ap, ◌∙◌, Bool-cases, ◌==◌,
}
use mathlib.Core.List.{append-nil, append_assoc, map-append}
use telco_helm_charts.Mode.{Environment, services_enabled}
use telco_helm_charts.Dashboard.State.{event, set_problem}
use telco_helm_charts.Exec.{Env, State, Exec, update}
use telco_helm_charts.Exec.View.{
  View, view, IsSteady, Shows, Shows-then, Shows-imp, Shows-ask, Shows-asked, Shows-spawn,
  Shows-read, Shows-update,
}
use telco_helm_charts.Setup.Tunnel
use telco_helm_charts.Setup.Tunnel.{Ending}
use telco_helm_charts.Setup.Registration.{
  Subscriber, Endpoint, Attached, failed, attached, attach_internet_ues-subscribers,
}
use telco_helm_charts.Setup.Initialize.{
  Setup, phone_id, report, announce, greet, add_phone, new_phone, get_ready, be_ready, or_report,
  finish, join, add_phones, with_ues, attach_ues, subscribers, initialize,
}

abbrev pub ready_with : List (String × String) → View
ready_with phones = record { ready = true; problem = ""; phones = phones }

abbrev pub stuck_with : String → List (String × String) → View
stuck_with err phones = record { ready = false; problem = err; phones = phones }

-- The endpoints that the tester's library attaches are those of the subscribers, in their order.
abbrev pub IsFaithful : {World : Type 0} → Setup World → Type 0
IsFaithful {World} setup =
    (subs : List Subscriber) (es : List Endpoint) (w v : World)
    → setup.attach_ims subs w ≡ (attached es, v)
    → map (λ (e : Endpoint). e.subscriber) es ≡ subs

module _ (getenv : Environment) (number letter : ℕ → String) where
  -- The phones from index `i` on, by id and number.
  abbrev pub lines : ℕ → List Subscriber → List (String × String)
  lines i [] = []
  lines i (s ∷ rest) = (phone_id getenv number letter i, s.msisdn) ∷ lines (suc i) rest

  -- All phones are there and the set-up is ready, or it has a problem and the first of them are there.
  abbrev pub Settled : List (String × String) → View → Type 0
  Settled all v =
      (v ≡ ready_with all) ⊎ ((err : String) × (n : ℕ) × (v ≡ stuck_with err (take n all)))

  abbrev under_way : List (String × String) → View
  under_way done = stuck_with "" done

  -- Of the phones `later`, a part is added to those of `done`.
  abbrev Ends : List (String × String) → List (String × String) → View → Type 0
  Ends done later v =
      (v ≡ ready_with (done ++ later))
      ⊎ ((err : String) × (n : ℕ) × (v ≡ stuck_with err (done ++ take n later)))

  module _ {World : Type 0} (setup : Setup World) {env : Env World} (steady : IsSteady env) where
    pub log-Shows :
        {v : View} (id text : String)
        → Shows v (update env (λ w d. event (env.now w) id text d)) (λ u. u ≡ v)
    unfolding event
    log-Shows id text = Shows-update steady _ (λ u. u) (λ w d. refl)

    report-Ends :
        (done later : List (String × String)) (err : String)
        → Shows (under_way done) (report getenv number letter setup env err) (Ends done later)
    unfolding report set_problem
    report-Ends done later err =
        Shows-then _ _ (Shows-update steady _ (λ u. record u { problem = err }) (λ w d. refl)) (λ _.
          Shows-imp _ (log-Shows "network" err)
            (λ u e. inr (err, 0, e ∙ ap (stuck_with err) (sym (append-nil done)))))

    or_report-Ends :
        (done later : List (String × String)) (err : Option String) (m : Exec World (Unit {0}))
        → Shows (under_way done) m (Ends done later)
        → Shows (under_way done) (or_report getenv number letter setup env err m) (Ends done later)
    or_report-Ends done later none m h = h
    or_report-Ends done later (some err) m h = report-Ends done later err

    pub greet-Shows :
        {v : View} (i : ℕ) → Shows v (greet getenv number letter setup env i) (λ u. u ≡ v)
    unfolding greet announce
    greet-Shows i = elim (Bool-cases (services_enabled getenv)) [
      | inl e ↦ rw e (
          Shows-then _ _ (log-Shows _ _) (λ _. Shows-then _ _ (Shows-spawn _) (λ _. Shows-spawn _)))
      | inr e ↦ rw e (log-Shows _ _)
    ]

    be_ready-Ends :
        (done : List (String × String))
        → Shows (under_way done) (be_ready getenv number letter setup env) (Ends done [])
    unfolding be_ready announce get_ready
    be_ready-Ends done =
        Shows-then _ _ (Shows-update steady _ (λ u. record u { ready = true }) (λ w d. refl)) (λ _.
          Shows-imp _ (log-Shows "network" _)
            (λ u e. inl (e ∙ ap ready_with (sym (append-nil done)))))

    finish-Ends :
        (done : List (String × String))
        → Shows (under_way done) (finish getenv number letter setup env) (Ends done [])
    unfolding finish
    finish-Ends done = elim (Bool-cases (getenv "BROWSER_ENABLED" == "true")) [
      | inl e ↦ rw e (
          Shows-then _ _ (Shows-read steady _) (λ phones.
            Shows-then _ _ (Shows-ask _)
              (λ err. or_report-Ends done [] err _ (be_ready-Ends done))))
      | inr e ↦ rw e (be_ready-Ends done)
    ]

    Ends-cons :
        (done : List (String × String)) (p : String × String) (later : List (String × String))
        (v : View)
        → Ends (done ++ p ∷ []) later v
        → Ends done (p ∷ later) v
    Ends-cons done p later v (inl e) = inl (e ∙ ap ready_with (append_assoc done (p ∷ []) later))
    Ends-cons done p later v (inr (err, n, e)) =
        inr (err, suc n, e ∙ ap (stuck_with err) (append_assoc done (p ∷ []) (take n later)))

    pub add_phone-Shows :
        {v : View} (i : ℕ) (s : Subscriber) (address : String)
        → Shows v
            (update env (λ w.
              add_phone getenv number letter setup env
                (new_phone getenv number letter i s address)))
            (λ u.
              u
              ≡ record v { phones = v.phones ++ (phone_id getenv number letter i, s.msisdn) ∷ [] })
    unfolding add_phone new_phone
    add_phone-Shows i s address =
        Shows-update steady _
          (λ u. record u { phones = u.phones ++ (phone_id getenv number letter i, s.msisdn) ∷ [] })
          (λ w d.
            ap (λ l. record { ready = d.ready; problem = d.problem; phones = l })
              (map-append _ d.phones _))

    join-Ends :
        (done later : List (String × String)) (i : ℕ) (s : Subscriber) (m : Exec World (Unit {0}))
        (e : Ending)
        → Shows
            (under_way (done ++ (phone_id getenv number letter i, s.msisdn) ∷ []))
            m
            (Ends (done ++ (phone_id getenv number letter i, s.msisdn) ∷ []) later)
        → Shows
            (under_way done)
            (join getenv number letter setup env i s m e)
            (Ends done ((phone_id getenv number letter i, s.msisdn) ∷ later))
    join-Ends done later i s m (Tunnel.failed err) h = report-Ends done _ _
    join-Ends done later i s m (Tunnel.attached address) h = Shows-then _ _ (Shows-ask _) λ _.
        Shows-then _ _ (add_phone-Shows i s address)
          λ _. Shows-then _ _ (greet-Shows i) λ _. Shows-imp _ h (Ends-cons done _ later)

    add_phones-Ends :
        (es : List Endpoint) (done : List (String × String)) (i : ℕ)
        → Shows
            (under_way done)
            (add_phones getenv number letter setup env i es)
            (Ends done (lines i (map (λ (e : Endpoint). e.subscriber) es)))
    unfolding add_phones
    add_phones-Ends [] done i = finish-Ends done
    add_phones-Ends (e ∷ es) done i = Shows-then _ _ (Shows-ask _) λ err.
        or_report-Ends done _ err _ (
          Shows-then _ _ (Shows-ask _)
            λ ending. join-Ends done _ i e.subscriber _ ending (add_phones-Ends es _ (suc i)))

    pub attach_ues-subscribers :
        IsFaithful setup
        → (es : List Endpoint) (w v : World)
        → attach_ues getenv number letter setup w ≡ (attached es, v)
        → map (λ (e : Endpoint). e.subscriber) es ≡ subscribers getenv
    unfolding attach_ues
    attach_ues-subscribers faithful es w v h = elim (Bool-cases (services_enabled getenv)) [
      | inl e ↦ faithful (subscribers getenv) es w v (rw e at h)
      | inr e ↦
          attach_internet_ues-subscribers setup.registrar setup.first_id (subscribers getenv) es w v
            (rw e at h)
    ]

    with_ues-Ends :
        (a : Attached)
        → ((es : List Endpoint)
            → a ≡ attached es
            → map (λ (e : Endpoint). e.subscriber) es ≡ subscribers getenv)
        → Shows
            (under_way [])
            (with_ues getenv number letter setup env a)
            (Ends [] (lines 0 (subscribers getenv)))
    with_ues-Ends (failed err) h = Shows-then _ _ (Shows-ask _) (λ _. report-Ends [] _ err)
    with_ues-Ends (attached es) h =
        subst
          (λ l.
            Shows (under_way []) (add_phones getenv number letter setup env 0 es)
              (Ends [] (lines 0 l)))
          (h es refl) (add_phones-Ends es [] 0)

    initialize-Shows :
        IsFaithful setup
        → Shows
            (under_way [])
            (initialize getenv number letter setup env)
            (Ends [] (lines 0 (subscribers getenv)))
    unfolding initialize
    initialize-Shows faithful = Shows-then _ _ (Shows-ask _) λ err. or_report-Ends [] _ err _ (
        Shows-asked _ _ (λ w. with_ues-Ends _ (λ es e.
          attach_ues-subscribers faithful es w (attach_ues getenv number letter setup w).1
            (ap (λ a. (a, (attach_ues getenv number letter setup w).1)) e))))

    -- The set-up settles, if the other goroutines leave its progress alone, the tester's library
    -- attaches the subscribers that it is given in their order, and no phone is there at the start:
    -- either it is ready, without a problem, and the phones are those of the chosen subscribers with
    -- their ids; or it is not ready, and only the first few of these phones are there.
    pub initialize-Settled :
        (s : State World)
        → IsFaithful setup
        → view s.dash ≡ stuck_with "" []
        → Settled
            (lines 0 (subscribers getenv))
            (view (initialize getenv number letter setup env s).1.dash)
    initialize-Settled s faithful start = (initialize-Shows faithful).shows s start
