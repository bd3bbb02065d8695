-- ===== src/Process/Safety.antt =====
-- The process keeps the bounds of the dashboard, with nothing assumed of its goroutines.
use telco_helm_charts.Common.{
  ℕ, zero, suc, ◌^◌, ◌≡◌, ◌%◌, Option, none, some, List, [], ◌∷◌, length, get_elem?, refl, inl, inr,
  Bool-cases, nat_eq, arith, All-get_elem?,
}
use telco_helm_charts.Dashboard.State.{Dashboard}
use telco_helm_charts.Dashboard.Steps.{Ticket, Reach, here, Reach-trans, IsCounted, Reach-IsCounted}
use telco_helm_charts.Dashboard.Caps.{IsCapped, Reach-IsCapped}
use telco_helm_charts.Exec.{
  Task, receive_messages, receive_calls, media, track_delivery, Env, State,
}
use telco_helm_charts.Exec.Runs.{system, Leads, Interleaves, IsOwned, AreOwned, Runs-pure}
use telco_helm_charts.Exec.Take.{Runs-AreOwned, IsCounted-bind}
use telco_helm_charts.Receive.Interleaving.{
  receive_messages-Runs, receive_calls-Runs, track_delivery-Runs,
}
use telco_helm_charts.Media.Interleaving.{media-Runs}
use telco_helm_charts.Setup.Initialize.Interleaving.{initialize-Runs}
use telco_helm_charts.Serve.Routes.{Surroundings}
use telco_helm_charts.Serve.Routes.Interleaving.{respond-Runs}
use telco_helm_charts.Process.{
  empty_dashboard, Job, set_up, request, go, run_task, run_found, run_job, run_jobs, scheduled,
  process,
}

-- From the state `s` with the tickets `k`, `t` is reached by atomic sections, and each goroutine
-- that tracks a message in `t` has an id that was taken for it.
abbrev Comes : {World : Type 0} → List Ticket → State World → State World → Type 0
Comes k s t =
    (tickets : List Ticket) × Reach (system k s.dash) (system tickets t.dash)
    × AreOwned (system tickets t.dash) t.spawned

-- Whether the counter is right can be decided, so the tickets may depend on it.
Leads-counted :
    {k : List Ticket} {d e : Dashboard}
    → (IsCounted (system k d) → (tickets : List Ticket) × Reach (system k d) (system tickets e))
    → Leads IsCounted k d e
Leads-counted {k} {d} f = elim (Bool-cases (nat_eq d.next (length k % 2 ^ 64))) [
  | inl e ↦
      (let v : IsCounted (system k d) = ground arith in
        record { tickets = (f v).0; reach = λ u. (f v).1 })
  | inr e ↦ record { tickets = k; reach = λ u. ground arith }
]

empty-IsCapped : IsCapped empty_dashboard
empty-IsCapped = record { next = omega arith; events = omega arith; phones = tt }

-- What holds before each job.
abbrev IsSound : {World : Type 0} → List Ticket → State World → Type 0
IsSound k s = IsCounted (system k s.dash) × AreOwned (system k s.dash) s.spawned

module _ {World : Type 0} (around : Surroundings World) where
  module _ {env : Env World} (calm : Interleaves env) where
    run_task-Comes :
        (rounds : ℕ) (t : Task) (k : List Ticket) (s : State World)
        → IsSound k s
        → IsOwned (system k s.dash) t
        → Comes k s (run_task around env rounds t s).1
    unfolding run_task
    run_task-Comes rounds (receive_messages i) k s (v, xs) own =
        Runs-AreOwned (receive_messages-Runs calm around.next_sms rounds i) k s v xs
    run_task-Comes rounds (receive_calls i) k s (v, xs) own =
        Runs-AreOwned (receive_calls-Runs calm around.getenv around.next_call rounds i) k s v xs
    run_task-Comes rounds (media i c) k s (v, xs) own =
        Runs-AreOwned
          (IsCounted-bind _ _ (media-Runs calm around.voice i c around.number rounds)
            (λ last. Runs-pure tt))
          k s v xs
    run_task-Comes rounds (track_delivery i id text to) k s (v, xs) own =
        let runs = track_delivery-Runs calm 30 i id text to in
        ((runs.leads k s).tickets, (runs.leads k s).reach (v, own), runs.owned k s (v, own) xs)

    run_found-Comes :
        (rounds : ℕ) (found : Option Task) (k : List Ticket) (s : State World)
        → IsSound k s
        → ((t : Task) → found ≡ some t → IsOwned (system k s.dash) t)
        → Comes k s (run_found around env rounds found s)
    unfolding run_found
    run_found-Comes rounds none k s (v, xs) own = (k, here, xs)
    run_found-Comes rounds (some t) k s sound own = run_task-Comes rounds t k s sound (own t refl)

    run_job-Comes :
        (j : Job) (k : List Ticket) (s : State World)
        → IsSound k s
        → Comes k s (run_job around env j s)
    unfolding run_job
    run_job-Comes set_up k s (v, xs) =
        Runs-AreOwned (initialize-Runs around.getenv around.number around.letter around.setup calm)
          k s v xs
    run_job-Comes (request r) k s (v, xs) = Runs-AreOwned (respond-Runs calm around r) k s v xs
    run_job-Comes (go place rounds) k s (v, xs) =
        run_found-Comes rounds (get_elem? s.spawned place) k s (v, xs)
          (λ t found. All-get_elem? (IsOwned (system k s.dash)) s.spawned place xs found)

    run_jobs-Comes :
        (js : List Job) (k : List Ticket) (s : State World)
        → IsSound k s
        → Comes k s (run_jobs around env js s)
    unfolding run_jobs
    run_jobs-Comes [] k s (v, xs) = (k, here, xs)
    run_jobs-Comes (j ∷ js) k s (v, xs) =
        let (middle, r, ys) = run_job-Comes j k s (v, xs) in
        let (tickets, q, zs) =
          run_jobs-Comes js middle (run_job around env j s) (Reach-IsCounted r v, ys) in
        (tickets, Reach-trans r q, zs)

  module _ (schedule : World → List Job) (env : Env World) where
    -- The process itself is what `Interleaves` assumes of the other goroutines.
    scheduled-Interleaves : (depth : ℕ) → Interleaves (scheduled around schedule env depth)
    unfolding scheduled
    scheduled-Interleaves zero = record {
      others = λ k d w. record { tickets = k; reach = λ v. here };
    }
    scheduled-Interleaves (suc n) = record {
      others = λ k d w.
          let s : State World = record { dash = d; world = w; spawned = [] } in
          let inner = scheduled-Interleaves n in
          Leads-counted λ v.
            let (tickets, r, xs) = run_jobs-Comes inner (schedule w) k s (v, tt) in (tickets, r);
    }

    -- From the empty dashboard, after any jobs of the process (set-ups, requests, rounds of the
    -- goroutines that were started), where any jobs run wherever one of these waits for a lock, and
    -- within those to any depth: the counter is below 2 ^ 64, at most 100 events are kept, each phone
    -- keeps at most 100 messages, and each message is a sent one in one of the four states of a sent
    -- message or a received one that is not being submitted.
    pub process-IsCapped :
        (depth : ℕ) (js : List Job) (w : World)
        → IsCapped (process around schedule env depth js w).dash
    unfolding process
    process-IsCapped depth js w =
        let (tickets, r, xs) =
          run_jobs-Comes (scheduled-Interleaves depth) js []
            (record { dash = empty_dashboard; world = w; spawned = [] }) (refl, tt) in
        Reach-IsCapped r empty-IsCapped
