-- ===== src/Exec.antt =====
-- How the handlers of ella-core/ue-phones/app run. A handler is a sequence of locked sections over
-- the dashboard and of calls of the tester's libraries; between two sections the other goroutines
-- of the process may run. What is not under src/ is a parameter: `World` is everything outside the
-- dashboard (calls, radio, network, clock), and `Env` has what a handler asks of it.
pub mod Runs
pub mod Take
pub mod View
use telco_helm_charts.Common.{ℕ, String, Bool, Option, List, [], ◌∷◌, ◌++◌}
use telco_helm_charts.Dashboard.State.{Message, Dashboard}

-- `Call.State()`. The source names two of the states; `under_way` stands for each other one.
pub data CallState : Type 0 where
  terminated confirmed under_way : CallState

-- `SMS.Submit`: the report, if it is an `*sms.RPError` with its cause, and the error.
pub record Submitted : Type 0 where
  pub rp_error : Option String
  pub error : Option String

-- `Invite`: a call, or an error.
pub data Invited : Type 0 where
  invited : ℕ → Invited
  refused : String → Invited

-- One phone of the peer's /api/state, as `trackDelivery` decodes it.
pub record Peer : Type 0 where
  pub number : String
  pub messages : List Message

-- `go d.media(p, c)`, `go d.trackDelivery(p, id, text, to)`, `go d.receiveSMS(p)` and
-- `go d.receiveCalls(p)`.
pub data Task : Type 0 where
  receive_messages : (phone : ℕ) → Task
  receive_calls : (phone : ℕ) → Task
  media : (phone call : ℕ) → Task
  track_delivery : (phone id : ℕ) (text to : String) → Task

-- An error is the text of `Error()`; no error is `none`. A phone is its index.
pub record Env (World : Type 0) : Type 0 where
  -- What the other goroutines do until the next lock is taken.
  pub others : Dashboard → World → Dashboard × World
  -- What happens outside the dashboard before a read.
  pub pass : World → World
  pub now : World → ℕ
  pub call_state : World → ℕ → CallState
  pub call_incoming : World → ℕ → Bool
  pub register : ℕ → World → Option String × World
  pub deregister : ℕ → World → Option String × World
  pub submit : ℕ → (smsc to text : String) → World → Submitted × World
  pub invite : ℕ → String → World → Invited × World
  pub answer : ℕ → World → Option String × World
  pub bye : ℕ → World → Option String × World
  pub cancel : ℕ → World → Option String × World
  pub reject : ℕ → (code : ℕ) → World → Option String × World
  pub ring : ℕ → World → Option String × World
  -- A second's sleep, GET /api/state of the peer and its decoding; none if either fails.
  pub fetch_state : World → Option (List Peer) × World

pub record State (World : Type 0) : Type 0 where
  pub dash : Dashboard
  pub world : World
  pub spawned : List Task

abbrev pub Exec : Type 0 → Type 0 → Type 0
Exec World A = State World → A × State World

module _ {World : Type 0} where
  unfoldable pub pure : {A : Type 0} → A → Exec World A
  pure a s = (a, s)

  infixl 5 ◌>>=◌ ◌>>◌
  unfoldable pub ◌>>=◌ : {A B : Type 0} → Exec World A → (A → Exec World B) → Exec World B
  ◌>>=◌ m f s = let (a, t) = m s in f a t

  abbrev pub ◌>>◌ : {B : Type 0} → Exec World (Unit {0}) → Exec World B → Exec World B
  m >> n = m >>= λ _. n

  -- A read of the libraries' state, which may have moved on since the last one.
  unfoldable pub observe : {A : Type 0} → Env World → (World → A) → Exec World A
  observe env f s = let w = env.pass s.world in (f w, record s { world = w })

  -- A call of the libraries, which do not see the dashboard.
  unfoldable pub ask : {A : Type 0} → (World → A × World) → Exec World A
  ask f s = let (a, w) = f s.world in (a, record s { world = w })

  unfoldable pub spawn : Task → Exec World (Unit {0})
  spawn t s = (tt, record s { spawned = s.spawned ++ t ∷ [] })

  -- A locked section: the others run until the lock is ours, then `f` runs alone.
  unfoldable pub locked :
      {A : Type 0} → Env World → (World → Dashboard → A × Dashboard) → Exec World A
  locked env f s =
      let (d, w) = env.others s.dash s.world in
      let (a, e) = f w d in (a, record s { dash = e; world = w })

  unfoldable pub update : Env World → (World → Dashboard → Dashboard) → Exec World (Unit {0})
  unfolding locked
  update env f = locked env (λ w d. (tt, f w d))
