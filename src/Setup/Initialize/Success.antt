-- ===== src/Setup/Initialize/Success.antt =====
-- When the set-up ends with success, and the phones that it then has.
use telco_helm_charts.Common.{
  ℕ, suc, String, true, Option, none, List, [], ◌∷◌, ◌++◌, map, ◌≡◌, inl, inr, refl, sym, subst, ap,
  ◌∙◌, length, eq_iff, Bool-cases, ◌==◌,
}
use mathlib.Core.List.{append-nil, append_assoc}
use telco_helm_charts.Mode.{Environment, services_enabled}
use telco_helm_charts.Exec.{Env, State, Exec, ask, ◌>>=◌}
use telco_helm_charts.Exec.View.{
  View, view, IsSteady, Shows, Shows-then, Shows-ask, Shows-asked, Shows-counted, Shows-update,
}
use telco_helm_charts.Setup.Registration.{Subscriber, Endpoint}
use telco_helm_charts.Setup.Initialize.{
  Setup, phone_id, attach_ues, protect_browser, get_ready, be_ready, announce, or_report, ims_of,
  finish, join, add_phones, with_ues, subscribers, initialize,
}
use telco_helm_charts.Setup.Initialize.Readiness.{
  lines, ready_with, stuck_with, log-Shows, greet-Shows, attach_ues-subscribers, IsFaithful,
  add_phone-Shows,
}
use telco_helm_charts.Setup.Initialize.Smooth.{
  IsSmooth, start_phone_gnb-none, attach_ues-attached, bring_up-attached, protect_browser-none,
}

module _ (getenv : Environment) (number letter : ℕ → String) {World : Type 0}
    (setup : Setup World) where
  module _ {env : Env World} (steady : IsSteady env)
      (smooth : IsSmooth getenv number letter setup) where
    -- An answer without an error.
    Shows-none :
        {v : View} {Q : View → Type 0} (f : World → Option String × World)
        (later : Exec World (Unit {0}))
        → ((w : World) → (f w).0 ≡ none)
        → Shows v later Q
        → Shows v (ask f >>= λ err. or_report getenv number letter setup env err later) Q
    Shows-none {v} {Q} f later good h = Shows-asked f _ (λ w.
        subst (λ o. Shows v (or_report getenv number letter setup env o later) Q) (sym (good w)) h)

    ims_of-none :
        (s : Subscriber) (w : World) → (ims_of getenv number letter setup env s w).0 ≡ none
    ims_of-none s w = elim (Bool-cases (services_enabled getenv)) [
      | inl e ↦ rw e (smooth.ims s w)
      | inr e ↦ rw e
    ]

    be_ready-Shows :
        (done : List (String × String))
        → Shows
            (stuck_with "" done)
            (be_ready getenv number letter setup env)
            (λ u. u ≡ ready_with done)
    unfolding be_ready announce get_ready
    be_ready-Shows done =
        Shows-then _ _ (Shows-update steady _ (λ u. record u { ready = true }) (λ w d. refl))
          (λ _. log-Shows getenv number letter setup steady "network" _)

    finish-Shows :
        (done : List (String × String))
        → length done ≡ length (subscribers getenv)
        → Shows
            (stuck_with "" done)
            (finish getenv number letter setup env)
            (λ u. u ≡ ready_with done)
    unfolding finish
    finish-Shows done count = elim (Bool-cases (getenv "BROWSER_ENABLED" == "true")) [
      | inl e ↦
          let enabled = (eq_iff _ _).0 e in
          let one = smooth.single enabled in
          let good = protect_browser-none getenv number letter setup smooth enabled in
          rw e (
            Shows-counted steady _ (
              subst
                (λ n.
                  Shows (stuck_with "" done)
                    (ask (protect_browser getenv number letter setup n) >>= λ err.
                      or_report getenv number letter setup env err
                        (be_ready getenv number letter setup env))
                    (λ u. u ≡ ready_with done))
                (sym (count ∙ one)) (Shows-none _ _ good (be_ready-Shows done))))
      | inr e ↦ rw e (be_ready-Shows done)
    ]

    length-lines :
        (i : ℕ) (subs : List Subscriber) → length (lines getenv number letter i subs) ≡ length subs
    length-lines i [] = refl
    length-lines i (s ∷ subs) = ap suc (length-lines (suc i) subs)

    add_phones-Shows :
        (es : List Endpoint) (done all : List (String × String)) (i : ℕ)
        → done ++ lines getenv number letter i (map (λ (e : Endpoint). e.subscriber) es) ≡ all
        → length all ≡ length (subscribers getenv)
        → Shows
            (stuck_with "" done)
            (add_phones getenv number letter setup env i es)
            (λ u. u ≡ ready_with all)
    unfolding add_phones
    add_phones-Shows [] done all i h count =
        let same : done ≡ all = sym (append-nil done) ∙ h in
        subst
          (λ l.
            Shows (stuck_with "" done) (finish getenv number letter setup env)
              (λ u. u ≡ ready_with l))
          same (finish-Shows done (ap length same ∙ count))
    add_phones-Shows (e ∷ es) done all i h count =
        let p : String × String = (phone_id getenv number letter i, e.subscriber.msisdn) in
        let subs = map (λ (e : Endpoint). e.subscriber) es in
        let more =
          add_phones-Shows es (done ++ p ∷ []) all (suc i)
            (append_assoc done (p ∷ []) (lines getenv number letter (suc i) subs) ∙ h) count in
        Shows-none _ _ (ims_of-none e.subscriber) (
          Shows-asked _ _ λ w.
            let (address, up) = bring_up-attached getenv number letter setup smooth i w in
            subst
              (λ a.
                Shows (stuck_with "" done)
                  (join getenv number letter setup env i e.subscriber
                    (add_phones getenv number letter setup env (suc i) es) a)
                  (λ u. u ≡ ready_with all))
              (sym up)
              (Shows-then _ _ (Shows-ask _) λ _.
                Shows-then _ _
                  (add_phone-Shows getenv number letter setup steady i e.subscriber address)
                  λ _. Shows-then _ _ (greet-Shows getenv number letter setup steady i) λ _. more))

    initialize-Shows :
        IsFaithful setup
        → Shows
            (stuck_with "" [])
            (initialize getenv number letter setup env)
            (λ u. u ≡ ready_with (lines getenv number letter 0 (subscribers getenv)))
    unfolding initialize
    initialize-Shows faithful =
        Shows-none _ _ (start_phone_gnb-none getenv number letter setup smooth) (
          Shows-asked _ _ λ w.
            let (es, up) = attach_ues-attached getenv number letter setup smooth w in
            let subs =
              attach_ues-subscribers getenv number letter setup steady faithful es w
                (attach_ues getenv number letter setup w).1
                (ap (λ a. (a, (attach_ues getenv number letter setup w).1)) up) in
            subst
              (λ a.
                Shows (stuck_with "" []) (with_ues getenv number letter setup env a)
                  (λ u. u ≡ ready_with (lines getenv number letter 0 (subscribers getenv))))
              (sym up)
              (add_phones-Shows es [] _ 0 (ap (lines getenv number letter 0) subs)
                (length-lines 0 (subscribers getenv))))

    -- The set-up is ready, without a problem, and has the phones of the chosen subscribers with their
    -- ids: if the calls of the libraries, the kernel and the firewall that `IsSmooth` lists do not
    -- fail, the browser is only enabled for a single phone, the other goroutines leave the progress alone, the tester's library attaches
    -- the subscribers that it is given in their order, and no phone is there at the start.
    pub initialize-ready :
        (s : State World)
        → IsFaithful setup
        → view s.dash ≡ stuck_with "" []
        → view (initialize getenv number letter setup env s).1.dash
          ≡ ready_with (lines getenv number letter 0 (subscribers getenv))
    initialize-ready s faithful start = (initialize-Shows faithful).shows s start
