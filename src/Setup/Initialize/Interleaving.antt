-- ===== src/Setup/Initialize/Interleaving.antt =====
-- The goroutine that attaches the phones, among the others.
use telco_helm_charts.Common.{ℕ, suc, String, Option, none, some, List, [], ◌∷◌, refl}
use telco_helm_charts.Mode.{Environment}
use telco_helm_charts.Dashboard.State.{event}
use telco_helm_charts.Dashboard.Steps
use telco_helm_charts.Dashboard.Steps.{Ticket, Reach, IsCounted}
use telco_helm_charts.Exec.{Env, Exec, receive_messages, receive_calls, spawn, update}
use telco_helm_charts.Exec.Runs.{Interleaves, Runs, Runs-ask, Runs-read, Runs-update, Runs-spawn}
use telco_helm_charts.Exec.Take.{IsCounted-stable, IsCounted-bind, Runs-log, rules}
use telco_helm_charts.Setup.Tunnel
use telco_helm_charts.Setup.Tunnel.{Ending}
use telco_helm_charts.Setup.Registration.{Subscriber, Endpoint, Attached, failed, attached}
use telco_helm_charts.Setup.Initialize.{
  Setup, report, announce, greet, add_phone, new_phone, get_ready, be_ready, or_report, finish,
  join, add_phones, with_ues, initialize,
}

module _ (getenv : Environment) (number letter : ℕ → String) {World : Type 0} (setup : Setup World)
    {env : Env World} (calm : Interleaves env) where
  log-Runs : (id text : String) → Runs IsCounted (update env (λ w d. event (env.now w) id text d))
  log-Runs id text = Runs-log calm (λ d. id) text

  report-Runs : (err : String) → Runs IsCounted (report getenv number letter setup env err)
  unfolding report
  report-Runs err =
      IsCounted-bind _ _ (Runs-update IsCounted-stable calm _ (λ w k d v. Steps.problem err))
        (λ _. log-Runs "network" err)

  messages_started : (i : ℕ) → Runs IsCounted (spawn {World = World} (receive_messages i))
  messages_started i = Runs-spawn _ (λ s h. tt)

  calls_started : (i : ℕ) → Runs IsCounted (spawn {World = World} (receive_calls i))
  calls_started i = Runs-spawn _ (λ s h. tt)

  greet-Runs : (i : ℕ) → Runs IsCounted (greet getenv number letter setup env i)
  unfolding greet announce
  greet-Runs i = search (rules, log-Runs, messages_started, calls_started)

  be_ready-Runs : Runs IsCounted (be_ready getenv number letter setup env)
  unfolding be_ready announce get_ready
  be_ready-Runs =
      IsCounted-bind _ _ (Runs-update IsCounted-stable calm _ (λ w k d v. Steps.start))
        (λ _. log-Runs "network" _)

  or_report-Runs :
      (err : Option String) (later : Exec World (Unit {0}))
      → Runs IsCounted later
      → Runs IsCounted (or_report getenv number letter setup env err later)
  or_report-Runs none later runs = runs
  or_report-Runs (some err) later runs = report-Runs err

  finish-Runs : Runs IsCounted (finish getenv number letter setup env)
  unfolding finish
  finish-Runs =
      search (rules, or_report-Runs, be_ready-Runs, Runs-read IsCounted-stable calm) depth 9

  join-Runs :
      (i : ℕ) (s : Subscriber) (later : Exec World (Unit {0})) (e : Ending)
      → Runs IsCounted later
      → Runs IsCounted (join getenv number letter setup env i s later e)
  unfolding add_phone new_phone
  join-Runs i s later (Tunnel.failed err) runs = report-Runs _
  join-Runs i s later (Tunnel.attached address) runs = IsCounted-bind _ _ (Runs-ask _) λ _.
      IsCounted-bind _ _
        (Runs-update IsCounted-stable calm _
          (λ w k d v. Steps.attach (new_phone getenv number letter i s address) refl))
        λ _. IsCounted-bind _ _ (greet-Runs i) (λ _. runs)

  add_phones-Runs :
      (i : ℕ) (es : List Endpoint) → Runs IsCounted (add_phones getenv number letter setup env i es)
  unfolding add_phones
  add_phones-Runs i [] = finish-Runs
  add_phones-Runs i (e ∷ es) = IsCounted-bind _ _ (Runs-ask _) λ err. or_report-Runs err _ (
      IsCounted-bind _ _ (Runs-ask _)
        (λ ending. join-Runs i e.subscriber _ ending (add_phones-Runs (suc i) es)))

  with_ues-Runs : (a : Attached) → Runs IsCounted (with_ues getenv number letter setup env a)
  with_ues-Runs (failed err) = search (rules, report-Runs)
  with_ues-Runs (attached endpoints) = add_phones-Runs 0 endpoints

  pub initialize-Runs : Runs IsCounted (initialize getenv number letter setup env)
  unfolding initialize
  initialize-Runs = search (rules, or_report-Runs, with_ues-Runs) depth 9
