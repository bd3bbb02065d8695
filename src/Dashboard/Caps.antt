-- ===== src/Dashboard/Caps.antt =====
-- What the atomic sections of server.go and phone_gnb.go keep however many ids were taken: the
-- bounds on the events and on the messages of a phone, and the states of the messages.
use telco_helm_charts.Common.{
  ℕ, ◌≤◌, ◌<◌, ◌^◌, not, ◌&&◌, ◌==◌, nat_eq, String, Option, none, some, List, [], ◌∷◌, ◌++◌, ◌≡◌,
  refl, ◌⊎◌, inl, inr, length, arith, length-keep_last, length-map, All, All-append, All-map,
  All-keep_last, All-modify, Bool-cases,
}
use telco_helm_charts.Dashboard.State.{
  Message, Phone, Dashboard, event, set_problem, add_message, on_phone, start_call, next_id,
}
use telco_helm_charts.Dashboard.Messages.{
  confirm_sender, settle, settle_message, mark_tracked, set_error, is_awaiting, mark_delivered,
}
use telco_helm_charts.Dashboard.Steps.{
  IsNew, IsVerdict, System, Step, log, problem, attach, start, take_id, store, confirm, verdict,
  track, call, finish, packets, Reach, here, next,
}
use telco_helm_charts.Dashboard.Invariant.{IsSentStatus, length-mark_delivered, length-mark_tracked}

-- The states of a message that a phone has received: once the counter of ids has wrapped, the
-- outcome of a sent message can reach a received one that has the same id.
abbrev pub IsReceivedStatus : String → Type 0
IsReceivedStatus status =
    (status ≡ "received")
    ⊎ (status ≡ "accepted by SMSC")
    ⊎ (status ≡ "failed")
    ⊎ (status ≡ "delivered to UE")

abbrev pub IsRegular : Message → Type 0
IsRegular m =
    ((m.direction ≡ "sent") × IsSentStatus m.status)
    ⊎ ((m.direction ≡ "received") × IsReceivedStatus m.status)

abbrev pub IsRegularPhone : Phone → Type 0
IsRegularPhone p = (length p.messages ≤ 100) × All IsRegular p.messages

pub record IsCapped (d : Dashboard) : Type 0 where
  pub next : d.next < 2 ^ 64
  pub events : length d.events ≤ 100
  pub phones : All IsRegularPhone d.phones

-- A regular message stays regular with the state of a submission that has ended.
IsRegular-ended :
    (m : Message) (status : String)
    → IsVerdict status ⊎ (status ≡ "delivered to UE")
    → IsRegular m
    → IsRegular (record m { status = status })
IsRegular-ended m status v h = ground (arith, v, h)

mark_delivered-IsRegular :
    (to text : String) (ms : List Message)
    → All IsRegular ms
    → All IsRegular (mark_delivered to text ms)
unfolding mark_delivered
mark_delivered-IsRegular to text [] h = h
mark_delivered-IsRegular to text (m ∷ ms) h = elim (Bool-cases (is_awaiting to text m)) [
  | inl e ↦ rw e (IsRegular-ended m _ (inr refl) h.0, h.1)
  | inr e ↦ rw e (h.0, mark_delivered-IsRegular to text ms h.1)
]

mark_tracked-IsRegular :
    (id : ℕ) (ms : List Message) → All IsRegular ms → All IsRegular (mark_tracked id ms)
unfolding mark_tracked
mark_tracked-IsRegular id [] h = h
mark_tracked-IsRegular id (m ∷ ms) h = elim (Bool-cases (nat_eq m.id id)) [
  | inl e ↦ rw e (IsRegular-ended m _ (inr refl) h.0, h.1)
  | inr e ↦ rw e (h.0, mark_tracked-IsRegular id ms h.1)
]

settle_message-IsRegular :
    (id : ℕ) (status : String) (m : Message)
    → IsVerdict status
    → IsRegular m
    → IsRegular (settle_message id status m)
unfolding settle_message
settle_message-IsRegular id status m v h =
    elim (Bool-cases (nat_eq m.id id && not (m.status == "delivered to UE"))) [
      | inl e ↦ rw e (IsRegular-ended m status (inl v) h)
      | inr e ↦ rw e h
    ]

new-IsRegular : (s : System) (m : Message) → IsNew s m → IsRegular m
new-IsRegular s m (inl (a, b, c)) = inl (a, inl b)
new-IsRegular s m (inr (a, b, c)) = inr (a, inl b)

add_message-IsRegular :
    (m : Message) (p : Phone) → IsRegular m → IsRegularPhone p → IsRegularPhone (add_message m p)
unfolding add_message
add_message-IsRegular m p new h = (
  length-keep_last 100 (p.messages ++ m ∷ []),
  All-keep_last IsRegular 100 (p.messages ++ m ∷ [])
      (All-append IsRegular p.messages (m ∷ []) h.1 (new, tt)),
)

confirm_sender-IsRegular :
    (from text to : String) (p : Phone)
    → IsRegularPhone p
    → IsRegularPhone (confirm_sender from text to p)
unfolding confirm_sender
confirm_sender-IsRegular from text to p h = ground (
  arith,
  length-mark_delivered to text p.messages,
  mark_delivered-IsRegular to text p.messages h.1,
)

settle-IsRegular :
    (id : ℕ) (status : String) (p : Phone)
    → IsVerdict status
    → IsRegularPhone p
    → IsRegularPhone (settle id status p)
unfolding settle
settle-IsRegular id status p v h = (
  rw (length-map p.messages (settle_message id status)) h.0,
  All-map IsRegular p.messages _ (λ m. settle_message-IsRegular id status m v) h.1,
)

set_error-IsRegular :
    (err : Option String) (p : Phone) → IsRegularPhone p → IsRegularPhone (set_error err p)
unfolding set_error
set_error-IsRegular none p h = h
set_error-IsRegular (some e) p h = h

module _ {d : Dashboard} (v : IsCapped d) where
  on_phone-IsCapped :
      (i : ℕ) (f : Phone → Phone)
      → ((p : Phone) → IsRegularPhone p → IsRegularPhone (f p))
      → IsCapped (on_phone i f d)
  unfolding on_phone
  on_phone-IsCapped i f keep = record {
    next = v.next;
    events = v.events;
    phones = All-modify IsRegularPhone d.phones i f keep v.phones;
  }

  event-IsCapped : (now : ℕ) (id text : String) → IsCapped (event now id text d)
  unfolding event
  event-IsCapped now id text = record {
    next = v.next;
    events = length-keep_last 100 (d.events ++ record { at = now; phone = id; text = text } ∷ []);
    phones = v.phones;
  }

  attach-IsCapped :
      (p : Phone) → p.messages ≡ [] → IsCapped (record d { phones = d.phones ++ p ∷ [] })
  attach-IsCapped p empty = record {
    next = v.next;
    events = v.events;
    phones = All-append IsRegularPhone d.phones (p ∷ []) v.phones (rw empty (omega arith, tt), tt);
  }

  next_id-IsCapped : IsCapped (record d { next = next_id d.next })
  unfolding next_id
  next_id-IsCapped = record { next = omega arith; events = v.events; phones = v.phones }

-- Every atomic section keeps the bounds and the states of the messages.
Step-IsCapped : {s t : System} → Step s t → IsCapped s.dash → IsCapped t.dash
Step-IsCapped (log now id text) v = event-IsCapped v now id text
Step-IsCapped (problem err) v =
    unfold set_problem in record { next = v.next; events = v.events; phones = v.phones }
Step-IsCapped (attach p empty) v = attach-IsCapped v p empty
Step-IsCapped start v = record { next = v.next; events = v.events; phones = v.phones }
Step-IsCapped (take_id t) v = next_id-IsCapped v
Step-IsCapped {s = s} (store i m new) v =
    on_phone-IsCapped v i _ (λ p. add_message-IsRegular m p (new-IsRegular s m new))
Step-IsCapped (confirm i from text to) v =
    on_phone-IsCapped v i _ (confirm_sender-IsRegular from text to)
Step-IsCapped (verdict i id status w k) v =
    on_phone-IsCapped v i _ (λ p. settle-IsRegular id status p w)
Step-IsCapped (track i id k) v =
    on_phone-IsCapped v i _ (λ p h.
      (rw (length-mark_tracked id p.messages) h.0, mark_tracked-IsRegular id p.messages h.1))
Step-IsCapped (call i c is_incoming peer) v =
    unfold start_call in on_phone-IsCapped v i _ (λ p h. h)
Step-IsCapped (finish i err) v = on_phone-IsCapped v i _ (set_error-IsRegular err)
Step-IsCapped (packets i tx rx_base rx) v = on_phone-IsCapped v i _ (λ p h. h)

pub Reach-IsCapped : {s t : System} → Reach s t → IsCapped s.dash → IsCapped t.dash
Reach-IsCapped here v = v
Reach-IsCapped (next r st) v = Step-IsCapped st (Reach-IsCapped r v)
