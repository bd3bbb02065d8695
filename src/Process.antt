-- ===== src/Process.antt =====
-- The process of ella-core/ue-phones/app as a whole: the goroutines and requests of `ServePhones`
-- (server.go) on one dashboard, the goroutines that they start, and what runs between the sections of
-- each.
pub mod Safety
use telco_helm_charts.Common.{
  ℕ, zero, suc, String, false, Option, none, some, List, [], ◌∷◌, get_elem?,
}
use telco_helm_charts.Mode.{Environment}
use telco_helm_charts.Dashboard.State.{Dashboard}
use telco_helm_charts.Exec.{
  Task, receive_messages, receive_calls, media, track_delivery, Env, State, Exec, pure, ◌>>=◌,
}
use telco_helm_charts.Action
use telco_helm_charts.Action.{action}
use telco_helm_charts.Receive
use telco_helm_charts.Receive.{Sms}
use telco_helm_charts.Media
use telco_helm_charts.Media.{Voice}
use telco_helm_charts.Setup.Initialize.{Setup, initialize}
use telco_helm_charts.Serve.Routes.{Surroundings, Request, respond}

-- The dashboard that `ServePhones` makes.
abbrev pub empty_dashboard : Dashboard
empty_dashboard = record { phones = []; events = []; ready = false; problem = ""; next = 0 }

-- What the process runs: the set-up (the program runs it once, here it may run again), a request, or a
-- goroutine that another one has started, which is named by its place among those, for a number of
-- rounds.
pub data Job : Type 0 where
  set_up : Job
  request : Request → Job
  go : (place rounds : ℕ) → Job

module _ {World : Type 0} (around : Surroundings World) where
  -- `trackDelivery` makes 30 rounds; the other loops are endless.
  unfoldable pub run_task : Env World → (rounds : ℕ) → Task → Exec World (Unit {0})
  run_task env rounds (receive_messages i) = Receive.receive_messages env around.next_sms rounds i
  run_task env rounds (receive_calls i) =
      Receive.receive_calls env around.getenv around.next_call rounds i
  run_task env rounds (media i c) = do
    last ← Media.media env around.voice i c around.number rounds
    pure tt
  run_task env rounds (track_delivery i id text to) = Receive.track_delivery env 30 i id text to

  unfoldable pub run_found : Env World → (rounds : ℕ) → Option Task → State World → State World
  unfolding run_task
  run_found env rounds none s = s
  run_found env rounds (some t) s = (run_task env rounds t s).1

  unfoldable pub run_job : Env World → Job → State World → State World
  unfolding run_found
  run_job env set_up s = (initialize around.getenv around.number around.letter around.setup env s).1
  run_job env (request r) s = (respond env around r s).1
  run_job env (go place rounds) s = run_found env rounds (get_elem? s.spawned place) s

  unfoldable pub run_jobs : Env World → List Job → State World → State World
  unfolding run_job
  run_jobs env [] s = s
  run_jobs env (j ∷ js) s = run_jobs env js (run_job env j s)

  -- Where a goroutine waits for a lock, the process runs the jobs that the scheduler chooses, and so
  -- it does within these, up to a depth.
  unfoldable pub scheduled : (schedule : World → List Job) → Env World → (depth : ℕ) → Env World
  unfolding run_jobs
  scheduled schedule env zero = record env { others = λ d w. (d, w) }
  scheduled schedule env (suc n) =
      let inner = scheduled schedule env n in
      record env {
        others = λ d w.
            let s = run_jobs inner (schedule w) (record { dash = d; world = w; spawned = [] }) in
            (s.dash, s.world);
      }

  -- A process from its start, for a list of jobs.
  unfoldable pub process :
      (schedule : World → List Job) → Env World → (depth : ℕ) → List Job → World → State World
  unfolding scheduled
  process schedule env depth js w =
      run_jobs (scheduled schedule env depth) js
        (record { dash = empty_dashboard; world = w; spawned = [] })
