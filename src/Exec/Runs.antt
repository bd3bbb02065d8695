-- ===== src/Exec/Runs.antt =====
-- When a handler is a run of the step relation: whatever the other goroutines do between its
-- sections, the dashboard that it leaves is reached from the one that it found.
use telco_helm_charts.Common.{
  Bool, true, false, List, [], ◌∷◌, if◌then◌else◌, All, All-append, All-imp,
}
use telco_helm_charts.Dashboard.State.{Dashboard}
use telco_helm_charts.Dashboard.Steps.{
  Ticket, outgoing, System, HasTicket, Step, Reach, here, next, Reach-trans, Reach-HasTicket,
  IsCounted,
}
use telco_helm_charts.Exec.{
  Env, State, Exec, Task, receive_messages, receive_calls, media, track_delivery, pure, ◌>>=◌,
  observe, ask, spawn, locked, update,
}

abbrev pub system : List Ticket → Dashboard → System
system k d = record { dash = d; tickets = k }

-- From `d` with the tickets `k` the dashboard `e` is reached, with the tickets that the sections on
-- the way have added, in a process that satisfies `φ` at the start.
pub record Leads (φ : System → Type 0) (k : List Ticket) (d e : Dashboard) : Type 0 where
  pub tickets : List Ticket
  pub reach : φ (system k d) → Reach (system k d) (system tickets e)

-- The other goroutines run atomic sections too, and nothing else, if the counter is right.
pub record Interleaves {World : Type 0} (env : Env World) : Type 0 where
  pub others :
      (k : List Ticket) (d : Dashboard) (w : World) → Leads IsCounted k d (env.others d w).0

-- A goroutine that tracks a message has an id that was taken for a message to send.
abbrev pub IsOwned : System → Task → Type 0
IsOwned s (track_delivery phone id text to) = HasTicket s id outgoing
IsOwned s (receive_messages phone) = Unit
IsOwned s (receive_calls phone) = Unit
IsOwned s (media phone call) = Unit

pub Reach-IsOwned : {s t : System} → Reach s t → (x : Task) → IsOwned s x → IsOwned t x
Reach-IsOwned r (track_delivery phone id text to) h = Reach-HasTicket id r h
Reach-IsOwned r (receive_messages phone) h = tt
Reach-IsOwned r (receive_calls phone) h = tt
Reach-IsOwned r (media phone call) h = tt

abbrev pub AreOwned : System → List Task → Type 0
AreOwned s xs = All (IsOwned s) xs

pub Reach-AreOwned : {s t : System} → Reach s t → (xs : List Task) → AreOwned s xs → AreOwned t xs
Reach-AreOwned {s} {t} r xs h = All-imp {P = IsOwned s} {Q = IsOwned t} (Reach-IsOwned r) xs h

-- A run does to the dashboard what steps do, and it starts no goroutine that tracks an id of another
-- kind.
pub record Runs {World A : Type 0} (φ : System → Type 0) (m : Exec World A) : Type 0 where
  pub leads : (k : List Ticket) (s : State World) → Leads φ k s.dash (m s).1.dash
  pub owned :
      (k : List Ticket) (s : State World)
      → φ (system k s.dash)
      → AreOwned (system k s.dash) s.spawned
      → AreOwned (system (leads k s).tickets (m s).1.dash) (m s).1.spawned

-- A property that no section takes away, and that the counter is right with it.
pub record IsStable (φ : System → Type 0) : Type 0 where
  pub keep : (s t : System) → Reach s t → φ s → φ t
  pub counted : (s : System) → φ s → IsCounted s

unfoldable Leads-trans :
    {φ : System → Type 0} {k : List Ticket} {d e f : Dashboard}
    → IsStable φ
    → (r : Leads φ k d e) → Leads φ r.tickets e f
    → Leads φ k d f
Leads-trans stable r q = record {
  tickets = q.tickets;
  reach = λ h. let first = r.reach h in Reach-trans first (q.reach (stable.keep _ _ first h));
}

unfoldable pub Leads-here : {φ : System → Type 0} (k : List Ticket) (d : Dashboard) → Leads φ k d d
Leads-here k d = record { tickets = k; reach = λ h. here }

-- One step, that `φ` allows.
pub Leads-step :
    {φ : System → Type 0} {k : List Ticket} {d e : Dashboard}
    → (φ (system k d) → Step (system k d) (system k e))
    → Leads φ k d e
Leads-step {k} st = record { tickets = k; reach = λ h. next here (st h) }

unfoldable Leads-counted :
    {φ : System → Type 0} {k : List Ticket} {d e : Dashboard}
    → IsStable φ
    → Leads IsCounted k d e
    → Leads φ k d e
Leads-counted stable r = record { tickets = r.tickets; reach = λ h. r.reach (stable.counted _ h) }

module _ {World : Type 0} {φ : System → Type 0} where
  pub Runs-pure : {A : Type 0} (a : A) → Runs φ (pure {World = World} a)
  unfolding pure Leads-here
  Runs-pure a = record { leads = λ k s. Leads-here k s.dash; owned = λ k s h xs. xs }

  pub Runs-spawn :
      (t : Task) → ((s : System) → φ s → IsOwned s t) → Runs φ (spawn {World = World} t)
  unfolding spawn Leads-here
  Runs-spawn t own = record {
    leads = λ k s. Leads-here k s.dash;
    owned = λ k s h xs.
        All-append (IsOwned (system k s.dash)) s.spawned (t ∷ []) xs (own (system k s.dash) h, tt);
  }

  pub Runs-observe : {A : Type 0} (env : Env World) (f : World → A) → Runs φ (observe env f)
  unfolding observe Leads-here
  Runs-observe env f = record { leads = λ k s. Leads-here k s.dash; owned = λ k s h xs. xs }

  pub Runs-ask : {A : Type 0} (f : World → A × World) → Runs φ (ask f)
  unfolding ask Leads-here
  Runs-ask f = record { leads = λ k s. Leads-here k s.dash; owned = λ k s h xs. xs }

  pub Runs-if :
      {A : Type 0} (b : Bool) (m n : Exec World A)
      → Runs φ m
      → Runs φ n
      → Runs φ (if b then m else n)
  Runs-if true m n hm hn = hm
  Runs-if false m n hm hn = hn

module _ {World : Type 0} {φ : System → Type 0} (stable : IsStable φ) where
  pub Runs-bind :
      {A B : Type 0} (m : Exec World A) (f : A → Exec World B)
      → Runs φ m
      → ((a : A) → Runs φ (f a))
      → Runs φ (m >>= f)
  unfolding ◌>>=◌ Leads-trans
  Runs-bind m f hm hf = record {
    leads = λ k s.
        let first = hm.leads k s in
        Leads-trans stable first ((hf (m s).0).leads first.tickets (m s).1);
    owned = λ k s h xs.
        let first = hm.leads k s in
        (hf (m s).0).owned first.tickets (m s).1 (stable.keep _ _ (first.reach h) h)
          (hm.owned k s h xs);
  }

  module _ {env : Env World} (calm : Interleaves env) where
    -- A section whose effect is one step, or none.
    pub Runs-locked :
        {A : Type 0} (f : World → Dashboard → A × Dashboard)
        → ((w : World) (k : List Ticket) (d : Dashboard) → Leads φ k d (f w d).1)
        → Runs φ (locked env f)
    unfolding locked Leads-counted
    Runs-locked f section = record {
      leads = λ k s.
          let first = calm.others k s.dash s.world in
          let (d, w) = env.others s.dash s.world in
          Leads-trans stable (Leads-counted stable first) (section w first.tickets d);
      owned = λ k s h xs.
          let first = calm.others k s.dash s.world in
          let (d, w) = env.others s.dash s.world in
          let all = Leads-trans stable (Leads-counted stable first) (section w first.tickets d) in
          Reach-AreOwned (all.reach h) s.spawned xs;
    }

    pub Runs-read :
        {A : Type 0} (f : World → Dashboard → A) → Runs φ (locked env (λ w d. (f w d, d)))
    Runs-read f = Runs-locked _ (λ w k d. Leads-here k d)

    pub Runs-update :
        (f : World → Dashboard → Dashboard)
        → ((w : World) (k : List Ticket) (d : Dashboard)
            → φ (system k d)
            → Step (system k d) (system k (f w d)))
        → Runs φ (update env f)
    unfolding update
    Runs-update f section = Runs-locked _ (λ w k d. Leads-step (section w k d))
