-- ===== src/Receive/Interleaving.antt =====
-- The receiving goroutines and the tracking one among all others: each is a sequence of atomic
-- sections too.
use telco_helm_charts.Common.{
  ℕ, zero, suc, String, true, Option, none, some, List, refl, inl, inr, Bool-cases,
}
use telco_helm_charts.Mode.{Environment}
use telco_helm_charts.Dashboard.State.{Message, Dashboard}
use telco_helm_charts.Dashboard.Steps
use telco_helm_charts.Dashboard.Steps.{
  Ticket, outgoing, incoming, System, HasTicket, Reach, here, next, IsCounted,
}
use telco_helm_charts.Exec.{Peer, Env, State, Exec, media, spawn}
use telco_helm_charts.Exec.Runs.{
  system, Leads, Interleaves, Runs, Runs-pure, Runs-spawn, Runs-ask, Runs-if, Runs-bind,
  Runs-locked, Runs-read, Runs-update, Leads-here, Leads-step,
}
use telco_helm_charts.Exec.Take.{
  IsCounted-stable, Owns, Owns-stable, Runs-take, IsCounted-bind, Runs-log, Runs-Reach, rules,
}
use telco_helm_charts.Action.{is_active, call_of, id_of}
use telco_helm_charts.Receive.{
  Sms, received, confirm_from, receive_as, receive_sms, receive_next, receive_messages, accept_next,
  receive_calls, take_call, ringing, accept_call, reject_call, receive_call, track_found,
  track_delivery, is_delivered, msisdn_of,
}

module _ {World : Type 0} {env : Env World} (calm : Interleaves env) where
  confirm_from-Runs :
      (kind : Ticket) (id j n : ℕ) (m : Sms) (to : String)
      → Runs (Owns kind id) (confirm_from env j n m to)
  unfolding confirm_from
  confirm_from-Runs kind id j zero m to = Runs-pure tt
  confirm_from-Runs kind id j (suc n) m to =
      Runs-bind (Owns-stable kind id) _ _
        (Runs-update (Owns-stable kind id) calm _ (λ w k d h. Steps.confirm j m.from m.text to))
        (λ _. confirm_from-Runs kind id (suc j) n m to)

  receive_as-Runs : (i : ℕ) (m : Sms) (id : ℕ) → Runs (Owns incoming id) (receive_as env i m id)
  unfolding receive_as received
  receive_as-Runs i m id =
      let stable = Owns-stable incoming id in
      Runs-bind stable _ _
        (Runs-update stable calm _
          (λ w k d h. Steps.store i (received env id m w) (inr (refl, refl, h.1))))
        λ _. Runs-bind stable _ _ (Runs-read stable calm _) λ read.
          Runs-bind stable _ _ (confirm_from-Runs incoming id 0 read.0 m read.1)
            λ _. Runs-update stable calm _ (λ w k d h. Steps.log _ _ _)

  pub receive_sms-Runs : (i : ℕ) (m : Sms) → Runs IsCounted (receive_sms env i m)
  unfolding receive_sms
  receive_sms-Runs i m = Runs-take calm incoming _ (receive_as-Runs i m)

  receive_next-Runs :
      (i : ℕ) (later : Exec World (Unit {0})) (m : Option Sms)
      → Runs IsCounted later
      → Runs IsCounted (receive_next env i later m)
  receive_next-Runs i later none h = Runs-pure tt
  receive_next-Runs i later (some m) h = IsCounted-bind _ _ (receive_sms-Runs i m) (λ _. h)

  pub receive_messages-Runs :
      (source : ℕ → World → Option Sms × World) (rounds i : ℕ)
      → Runs IsCounted (receive_messages env source rounds i)
  unfolding receive_messages
  receive_messages-Runs source zero i = Runs-pure tt
  receive_messages-Runs source (suc n) i =
      IsCounted-bind _ _ (Runs-ask _)
        (λ m. receive_next-Runs i _ m (receive_messages-Runs source n i))

  module _ (getenv : Environment) where
    take_call-Leads :
        (i c : ℕ) (w : World) (k : List Ticket) (d : Dashboard)
        → Leads IsCounted k d (take_call env getenv i c w d).1
    take_call-Leads i c w k d = elim (Bool-cases (is_active env getenv (call_of i d) w)) [
      | inl e ↦ rw e (Leads-here k d)
      | inr e ↦ rw e (Leads-step (λ v. Steps.call i c true "Incoming call"))
    ]

    ringing-Runs : (i : ℕ) (err : Option String) → Runs IsCounted (ringing env getenv i err)
    unfolding ringing
    ringing-Runs i none = Runs-pure tt
    ringing-Runs i (some err) = Runs-log calm (id_of i) _

    media_started : (i c : ℕ) → Runs IsCounted (spawn {World = World} (media i c))
    media_started i c = Runs-spawn _ (λ s h. tt)

    pub receive_call-Runs : (i c : ℕ) → Runs IsCounted (receive_call env getenv i c)
    unfolding receive_call accept_call reject_call
    receive_call-Runs i c =
        IsCounted-bind _ _ (Runs-locked IsCounted-stable calm _ (take_call-Leads i c))
          (λ busy. search (rules, Runs-log calm, ringing-Runs, media_started) depth 9)

    accept_next-Runs :
        (i : ℕ) (later : Exec World (Unit {0})) (c : Option ℕ)
        → Runs IsCounted later
        → Runs IsCounted (accept_next env getenv i later c)
    accept_next-Runs i later none h = Runs-pure tt
    accept_next-Runs i later (some c) h = IsCounted-bind _ _ (receive_call-Runs i c) (λ _. h)

    pub receive_calls-Runs :
        (source : ℕ → World → Option ℕ × World) (rounds i : ℕ)
        → Runs IsCounted (receive_calls env getenv source rounds i)
    unfolding receive_calls
    receive_calls-Runs source zero i = Runs-pure tt
    receive_calls-Runs source (suc n) i =
        IsCounted-bind _ _ (Runs-ask _)
          (λ c. accept_next-Runs i _ c (receive_calls-Runs source n i))

  track_found-Leads :
      (i id : ℕ) (text to : String) (peers : List Peer) (found : Option Message) (k : List Ticket)
      (d : Dashboard)
      → Leads (Owns outgoing id) k d (track_found env i id text to peers found d).1
  track_found-Leads i id text to peers none k d = Leads-here k d
  track_found-Leads i id text to peers (some sent) k d =
      elim (Bool-cases (is_delivered (msisdn_of i d) text to sent peers)) [
        | inl f ↦ rw f (Leads-step (λ h. Steps.track i id h.1))
        | inr f ↦ rw f (Leads-here k d)
      ]

  pub track_delivery-Runs :
      (attempts i id : ℕ) (text to : String)
      → Runs (Owns outgoing id) (track_delivery env attempts i id text to)
  unfolding track_delivery
  track_delivery-Runs zero i id text to = Runs-pure tt
  track_delivery-Runs (suc n) i id text to =
      Runs-bind (Owns-stable outgoing id) _ _ (Runs-ask _) elim [
        | none ↦ track_delivery-Runs n i id text to
        | some peers ↦
            Runs-bind (Owns-stable outgoing id) _ _
              (Runs-locked (Owns-stable outgoing id) calm _
                (λ w k d. track_found-Leads i id text to peers _ k d))
              (λ stop. Runs-if stop _ _ (Runs-pure tt) (track_delivery-Runs n i id text to))
      ]

-- Whatever the other goroutines do between the sections of the goroutine that receives a short
-- message, if they run atomic sections only, the dashboard that it leaves is reached from the one
-- that it found by atomic sections, if the counter was the number of ids that were taken (modulo
-- 2 ^ 64).
receive_sms-Reach :
    {World : Type 0} {env : Env World} (calm : Interleaves env) (i : ℕ) (m : Sms) (k : List Ticket)
    (s : State World)
    → IsCounted (system k s.dash)
    → (tickets : List Ticket) × Reach
        (system k s.dash)
        (system tickets (receive_sms env i m s).1.dash)
receive_sms-Reach calm i m k s v = Runs-Reach (receive_sms-Runs calm i m) k s v

-- Whatever the other goroutines do between the sections of the goroutine that accepts or rejects a
-- call, if they run atomic sections only, the dashboard that it leaves is reached from the one that
-- it found by atomic sections, if the counter was the number of ids that were taken (modulo 2 ^ 64).
receive_call-Reach :
    {World : Type 0} {env : Env World} (calm : Interleaves env) (getenv : Environment) (i c : ℕ)
    (k : List Ticket) (s : State World)
    → IsCounted (system k s.dash)
    → (tickets : List Ticket) × Reach
        (system k s.dash)
        (system tickets (receive_call env getenv i c s).1.dash)
receive_call-Reach calm getenv i c k s v = Runs-Reach (receive_call-Runs calm getenv i c) k s v
