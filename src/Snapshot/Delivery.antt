-- ===== src/Snapshot/Delivery.antt =====
-- What `trackDelivery` of one process reads in the state of another one, which has received the
-- message.
use telco_helm_charts.Common.{
  ℕ, zero, suc, ◌≤◌, String, true, ◌||◌, some, List, [], ◌∷◌, ◌++◌, map, length, get_elem?, modify,
  keep_last-append, ◌≡◌, refl, sym, subst, ap, ◌∙◌, arith, inl, inr, Bool-cases, eq_iff, eq_refl,
  ◌==◌, ◌<>◌,
}
use telco_helm_charts.Mode.{Environment}
use telco_helm_charts.Dashboard.State.{
  Message, Phone, Dashboard, event, add_message, trim, on_phone, next_id,
}
use telco_helm_charts.Dashboard.Messages.{
  is_awaiting, mark_delivered, confirm_sender, find_message, track_on,
}
use telco_helm_charts.Exec.{Env, State, pure, ◌>>=◌, locked, update}
use telco_helm_charts.Exec.View.{IsIdle}
use telco_helm_charts.Action.{id_of}
use telco_helm_charts.Receive.{
  Sms, is_receipt, any_receipt, is_delivered, received, confirm_from, receive_as, receive_sms,
  msisdn_of, messages_of, track_found, track_section,
}
use telco_helm_charts.Snapshot.{Reading, state}
use telco_helm_charts.Snapshot.Told.{decode, peer_of, state-decode}

-- The messages of a phone that the loop of `trackDelivery` looks at.
module _ (msisdn text to : String) (sent : Message) where
  any_receipt-append :
      (ms : List Message) (m : Message)
      → is_receipt msisdn text sent m ≡ true
      → any_receipt msisdn text sent (ms ++ m ∷ []) ≡ true
  unfolding any_receipt
  any_receipt-append [] m h = ground arith
  any_receipt-append (n ∷ ms) m h = ground (arith, any_receipt-append ms m h)

  -- That a message is marked as delivered does not make it another receipt.
  any_receipt-mark_delivered :
      (peer body : String) (ms : List Message)
      → any_receipt msisdn text sent (mark_delivered peer body ms) ≡ any_receipt msisdn text sent ms
  unfolding mark_delivered any_receipt is_receipt
  any_receipt-mark_delivered peer body [] = refl
  any_receipt-mark_delivered peer body (m ∷ ms) = elim (Bool-cases (is_awaiting peer body m)) [
    | inl e ↦ rw e refl
    | inr e ↦
        rw e
          (ap (λ b. is_receipt msisdn text sent m || b) (any_receipt-mark_delivered peer body ms))
  ]

  -- Whether the dashboard tells that the message was received.
  abbrev Tells : Dashboard → Type 0
  Tells d = is_delivered msisdn text to sent (map peer_of d.phones) ≡ true

  is_delivered-modify :
      (f : Phone → Phone)
      → ((p : Phone) → (f p).msisdn ≡ p.msisdn)
      → ((p : Phone)
          → any_receipt msisdn text sent (f p).messages ≡ any_receipt msisdn text sent p.messages)
      → (ps : List Phone) (j : ℕ)
      → is_delivered msisdn text to sent (map peer_of (modify ps j f))
        ≡ is_delivered msisdn text to sent (map peer_of ps)
  unfolding is_delivered
  is_delivered-modify f number receipts [] j = refl
  is_delivered-modify f number receipts (p ∷ ps) zero = simp (number p, receipts p)
  is_delivered-modify f number receipts (p ∷ ps) (suc j) =
      simp (is_delivered-modify f number receipts ps j)

  is_delivered-store :
      (f : Phone → Phone) (p : Phone)
      → (f p).msisdn ≡ to
      → any_receipt msisdn text sent (f p).messages ≡ true
      → (ps : List Phone) (i : ℕ) → get_elem? ps i ≡ some p
      → is_delivered msisdn text to sent (map peer_of (modify ps i f)) ≡ true
  unfolding is_delivered
  is_delivered-store f p number receipt [] i there = ground arith
  is_delivered-store f p number receipt (q ∷ ps) zero there =
      let same : q ≡ p = ground arith in
      subst (λ x. is_delivered msisdn text to sent (map peer_of (modify (x ∷ ps) zero f)) ≡ true)
        (sym same) (simp (number, receipt, eq_refl to))
  is_delivered-store f p number receipt (q ∷ ps) (suc i) there =
      ground (arith, is_delivered-store f p number receipt ps i there)

  confirm_sender-keeps :
      (from body peer : String) (p : Phone)
      → ((confirm_sender from body peer p).msisdn ≡ p.msisdn)
        × (any_receipt msisdn text sent (confirm_sender from body peer p).messages
            ≡ any_receipt msisdn text sent p.messages)
  unfolding confirm_sender
  confirm_sender-keeps from body peer p = elim (Bool-cases (p.msisdn == from)) [
    | inl e ↦ rw e (refl, any_receipt-mark_delivered peer body p.messages)
    | inr e ↦ rw e (refl, refl)
  ]

  module _ {World : Type 0} {env : Env World} (idle : IsIdle env) where
    -- A section that keeps what is told.
    update-Tells :
        (f : World → Dashboard → Dashboard)
        → ((w : World) (d : Dashboard) → Tells d → Tells (f w d))
        → (s : State World) → Tells s.dash
        → Tells (update env f s).1.dash
    unfolding update locked
    update-Tells f keep s h = keep _ _ (subst Tells (sym (idle.alone s.dash s.world)) h)

    confirm_from-Tells :
        (j n : ℕ) (m : Sms) (peer : String) (s : State World)
        → Tells s.dash
        → Tells (confirm_from env j n m peer s).1.dash
    unfolding confirm_from ◌>>=◌ pure
    confirm_from-Tells j zero m peer s h = h
    confirm_from-Tells j (suc n) m peer s h = confirm_from-Tells (suc j) n m peer _ (
        update-Tells (λ w. on_phone j (confirm_sender m.from m.text peer))
          (λ w d told.
            unfold on_phone in
            is_delivered-modify (confirm_sender m.from m.text peer)
              (λ p. (confirm_sender-keeps m.from m.text peer p).0)
              (λ p. (confirm_sender-keeps m.from m.text peer p).1) d.phones j
            ∙ told)
          s h)

    event-Tells :
        (now : ℕ) (id body : String) (d : Dashboard) → Tells d → Tells (event now id body d)
    unfolding event
    event-Tells now id body d h = h

    module _ (m : Sms) (from : m.from ≡ msisdn) (body : m.text ≡ text)
        (late : (w : World) → sent.at ≤ env.now w) where
      received-is_receipt :
          (id : ℕ) (w : World) → is_receipt msisdn text sent (received env id m w) ≡ true
      unfolding is_receipt received
      received-is_receipt id w =
          ground (arith, from, body, late w, eq_iff m.from msisdn, eq_iff m.text text)

      stored-receipt :
          (id : ℕ) (w : World) (p : Phone)
          → any_receipt msisdn text sent (add_message (received env id m w) p).messages ≡ true
      unfolding add_message trim
      stored-receipt id w p =
          let (rest, e) = keep_last-append 99 p.messages (received env id m w) in
          rw e (any_receipt-append rest _ (received-is_receipt id w))

      store-Tells :
          (i id : ℕ) (w : World) (p : Phone) (d : Dashboard)
          → get_elem? d.phones i ≡ some p
          → p.msisdn ≡ to
          → Tells (on_phone i (add_message (received env id m w)) d)
      unfolding on_phone add_message trim
      store-Tells i id w p d there number =
          is_delivered-store (add_message (received env id m w)) p number (stored-receipt id w p)
            d.phones i there

      receive_as-Tells :
          (i id : ℕ) (p : Phone) (s : State World)
          → get_elem? s.dash.phones i ≡ some p
          → p.msisdn ≡ to
          → Tells (receive_as env i m id s).1.dash
      unfolding receive_as update locked ◌>>=◌
      receive_as-Tells i id p s there number =
          let (d, w) = env.others s.dash s.world in
          let kept : get_elem? d.phones i ≡ some p =
            ap (λ (e : Dashboard). get_elem? e.phones i) (idle.alone s.dash s.world) ∙ there in
          let stored = store-Tells i id w p d kept number in
          let s1 = (update env (λ v. on_phone i (add_message (received env id m v))) s).1 in
          let read =
            locked {A = ℕ × String} env (λ v e. ((length e.phones, msisdn_of i e), e)) s1 in
          let s2 = (confirm_from env 0 read.0.0 m read.0.1 read.1).1 in
          let confirmed : Tells s2.dash =
            confirm_from-Tells 0 read.0.0 m read.0.1 read.1
              (subst Tells (sym (idle.alone s1.dash s1.world)) stored) in
          update-Tells (λ v e. event (env.now v) (id_of i e) ("SMS received from " <> m.from) e)
            (λ v e. event-Tells (env.now v) (id_of i e) ("SMS received from " <> m.from) e) s2
            confirmed

      receive_sms-Tells :
          (i : ℕ) (p : Phone) (s : State World)
          → get_elem? s.dash.phones i ≡ some p
          → p.msisdn ≡ to
          → Tells (receive_sms env i m s).1.dash
      unfolding receive_sms locked ◌>>=◌
      receive_sms-Tells i p s there number =
          let (d, w) = env.others s.dash s.world in
          receive_as-Tells i (next_id d.next) p
            (record s { dash = record d { next = next_id d.next }; world = w })
            (ap (λ (e : Dashboard). get_elem? e.phones i) (idle.alone s.dash s.world) ∙ there)
            number

-- A phone of one process has sent a message, and a phone of another process, whose number is the one
-- that the message was sent to, receives it, by a clock that is past the time of sending. Then,
-- while the other goroutines there leave the dashboard alone, the state that the second process
-- tells afterwards makes the first one mark the message as delivered and end the tracking.
pub receive_sms-track_section :
    {World Other : Type 0} (sender : Env Other) {env : Env World} (idle : IsIdle env)
    (reading : Reading World) (getenv : Environment) (i j id : ℕ) (p : Phone) (m : Sms)
    (d : Dashboard) (sent : Message) (s : State World)
    → find_message id (messages_of j d) ≡ some sent
    → get_elem? s.dash.phones i ≡ some p
    → m.from ≡ msisdn_of j d
    → ((w : World) → sent.at ≤ env.now w)
    → track_section sender j id m.text p.msisdn
        (map decode (state env reading getenv (receive_sms env i m s).1).0.phones)
        d
      ≡ (true, on_phone j (track_on id) d)
receive_sms-track_section sender {env} idle reading getenv i j id p m d sent s there phone from
      late =
    let told =
      receive_sms-Tells (msisdn_of j d) m.text p.msisdn sent idle m from refl late i p s phone
        refl in
    let read : is_delivered (msisdn_of j d) m.text p.msisdn sent
          (map decode (state env reading getenv (receive_sms env i m s).1).0.phones)
        ≡ true =
      ap (is_delivered (msisdn_of j d) m.text p.msisdn sent) (state-decode idle reading getenv _)
      ∙ told in
    rw (track_section, there, track_found, read) refl
