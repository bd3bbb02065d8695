-- ===== src/Exec/Take.antt =====
-- Handlers that take an id from the counter, and the rules by which handlers are runs of the step relation.
use telco_helm_charts.Common.{ℕ, String, some, List, [], ◌∷◌, ◌++◌, ◌≡◌, refl, length, get_elem?}
use telco_helm_charts.Dashboard.State.{Dashboard, next_id, event}
use telco_helm_charts.Dashboard.Steps
use telco_helm_charts.Dashboard.Steps.{
  Ticket, outgoing, System, HasTicket, Reach, here, next, Reach-trans, Reach-HasTicket, IsCounted,
  Step-IsCounted, Reach-IsCounted, next_id-eq,
}
use telco_helm_charts.Exec.{Env, State, Exec, ◌>>=◌, locked, update}
use telco_helm_charts.Exec.Runs.{
  system, Leads, Interleaves, Runs, IsStable, AreOwned, Reach-AreOwned, Runs-pure, Runs-spawn,
  Runs-observe, Runs-ask, Runs-if, Runs-bind, Runs-locked, Runs-read, Runs-update,
}

pub IsCounted-stable : IsStable IsCounted
IsCounted-stable = record { keep = λ s t r v. Reach-IsCounted r v; counted = λ s v. v }

-- The counter is right, and an id that was taken for a message of a kind.
abbrev pub Owns : Ticket → ℕ → System → Type 0
Owns t id s = IsCounted s × HasTicket s id t

pub Owns-stable : (t : Ticket) (id : ℕ) → IsStable (Owns t id)
Owns-stable t id = record {
  keep = λ s t r (v, h). (Reach-IsCounted r v, Reach-HasTicket id r h);
  counted = λ s (v, h). v;
}

last-append {ℓ} : {A : Type ℓ} (xs : List A) (a : A) → get_elem? (xs ++ a ∷ []) (length xs) ≡ some a
last-append [] a = refl
last-append (x ∷ xs) a = last-append xs a

abbrev take_next : Dashboard → ℕ × Dashboard
take_next d = (next_id d.next, record d { next = next_id d.next })

-- The state of a process after an id was taken for a message of a kind.
abbrev taken : Ticket → System → System
taken t s = system (s.tickets ++ t ∷ []) (take_next s.dash).1

taken-Owns : (t : Ticket) (s : System) → IsCounted s → Owns t (next_id s.dash.next) (taken t s)
taken-Owns t s v = (
  Step-IsCounted {s = s} (Steps.take_id t) v,
  (length s.tickets, last-append s.tickets t, next_id-eq s v),
)

Leads-take :
    (t : Ticket) {k : List Ticket} {d e : Dashboard}
    → Leads (Owns t (next_id d.next)) (k ++ t ∷ []) (take_next d).1 e
    → Leads IsCounted k d e
Leads-take t {k} {d} r = record {
  tickets = r.tickets;
  reach = λ v. Reach-trans (next here (Steps.take_id t)) (r.reach (taken-Owns t (system k d) v));
}

pub IsCounted-bind :
    {World A B : Type 0} (m : Exec World A) (f : A → Exec World B)
    → Runs IsCounted m
    → ((a : A) → Runs IsCounted (f a))
    → Runs IsCounted (m >>= f)
IsCounted-bind = Runs-bind IsCounted-stable

pub ruleset rules = (IsCounted-bind, Runs-observe, Runs-if, Runs-pure, Runs-ask)

module _ {World : Type 0} {env : Env World} (calm : Interleaves env) where
  -- An id is taken from the counter, and the rest of the handler owns it.
  pub Runs-take :
      (kind : Ticket) {B : Type 0} (f : ℕ → Exec World B)
      → ((id : ℕ) → Runs (Owns kind id) (f id))
      → Runs IsCounted (locked env (λ w d. take_next d) >>= f)
  unfolding locked ◌>>=◌ Leads-take
  Runs-take kind f hf = record {
    leads = λ k s.
        let first = calm.others k s.dash s.world in
        let (d, w) = env.others s.dash s.world in
        let t : State World = record s { dash = (take_next d).1; world = w } in
        let rest = (hf (next_id d.next)).leads (first.tickets ++ kind ∷ []) t in
        let all = Leads-take kind rest in
        record {
          tickets = rest.tickets;
          reach = λ v. let r = first.reach v in Reach-trans r (all.reach (Reach-IsCounted r v));
        };
    owned = λ k s v xs.
        let first = calm.others k s.dash s.world in
        let (d, w) = env.others s.dash s.world in
        let t : State World = record s { dash = (take_next d).1; world = w } in
        let r = first.reach v in
        let step : Reach (system first.tickets d) (taken kind (system first.tickets d)) =
          next here (Steps.take_id kind) in
        (hf (next_id d.next)).owned (first.tickets ++ kind ∷ []) t
          (taken-Owns kind (system first.tickets d) (Reach-IsCounted r v))
          (Reach-AreOwned (Reach-trans r step) s.spawned xs);
  }

  -- A section that logs an event.
  pub Runs-log :
      (id : Dashboard → String) (text : String)
      → Runs IsCounted (update env (λ w d. event (env.now w) (id d) text d))
  Runs-log id text =
      Runs-update IsCounted-stable calm _ (λ w k d v. Steps.log (env.now w) (id d) text)

-- What a run comes to, with the goroutines that it started.
pub Runs-AreOwned :
    {World A : Type 0} {m : Exec World A}
    → Runs IsCounted m
    → (k : List Ticket) (s : State World) → IsCounted (system k s.dash)
    → AreOwned (system k s.dash) s.spawned
    → (tickets : List Ticket) × Reach (system k s.dash) (system tickets (m s).1.dash)
      × AreOwned (system tickets (m s).1.dash) (m s).1.spawned
Runs-AreOwned runs k s v xs =
    ((runs.leads k s).tickets, (runs.leads k s).reach v, runs.owned k s v xs)

-- What a run of the step relation comes to.
pub Runs-Reach :
    {World A : Type 0} {m : Exec World A}
    → Runs IsCounted m
    → (k : List Ticket) (s : State World) → IsCounted (system k s.dash)
    → (tickets : List Ticket) × Reach (system k s.dash) (system tickets (m s).1.dash)
Runs-Reach runs k s v = ((runs.leads k s).tickets, (runs.leads k s).reach v)
