-- ===== src/Dashboard/Invariant.antt =====
-- What holds of the dashboard after any interleaving of its goroutines.
use telco_helm_charts.Common.{
  ℕ, ◌≤◌, ◌<◌, ◌^◌, not, ◌&&◌, ◌==◌, nat_eq, nat_eq_iff, get_elem?-lt, subst, String, true, Option,
  some, List, [], ◌∷◌, ◌++◌, ◌≡◌, refl, ◌⊎◌, length, arith, length-keep_last, All, All-append,
  All-map, All-keep_last, length-map, none, Bool-cases, inl, inr, All-imp, eq_iff,
}
use telco_helm_charts.Dashboard.State.{Message, Phone, add_message}
use telco_helm_charts.Dashboard.Messages.{
  confirm_sender, settle, mark_tracked, track_on, set_error, track_on, is_awaiting, mark_delivered,
  settle_message,
}
use telco_helm_charts.Dashboard.Steps.{
  outgoing, incoming, System, HasTicket, IsNew, IsVerdict, Step, Step-HasTicket,
}

-- The states of a message that a phone has sent.
abbrev pub IsSentStatus : String → Type 0
IsSentStatus status =
    (status ≡ "submitting")
    ⊎ (status ≡ "accepted by SMSC")
    ⊎ (status ≡ "failed")
    ⊎ (status ≡ "delivered to UE")

-- A stored message is one that a phone has sent, in one of the four states of such a message, or
-- one that it received; its id was taken for a message of that kind.
abbrev pub IsLegal : System → Message → Type 0
IsLegal s m =
    ((m.direction ≡ "sent") × IsSentStatus m.status × HasTicket s m.id outgoing)
    ⊎ ((m.direction ≡ "received") × (m.status ≡ "received") × HasTicket s m.id incoming)

abbrev pub IsLegalPhone : System → Phone → Type 0
IsLegalPhone s p = (length p.messages ≤ 100) × All (IsLegal s) p.messages

pub record IsValid (s : System) : Type 0 where
  pub events : length s.dash.events ≤ 100
  pub phones : All (IsLegalPhone s) s.dash.phones

pub length-mark_delivered :
    (to text : String) (ms : List Message) → length (mark_delivered to text ms) ≡ length ms
unfolding mark_delivered
length-mark_delivered to text [] = refl
length-mark_delivered to text (m ∷ ms) = ground (arith, length-mark_delivered to text ms)

pub length-mark_tracked : (id : ℕ) (ms : List Message) → length (mark_tracked id ms) ≡ length ms
unfolding mark_tracked
length-mark_tracked id [] = refl
length-mark_tracked id (m ∷ ms) = ground (arith, length-mark_tracked id ms)

module _ (s : System) where
  is_awaiting-IsLegal :
      (to text : String) (m : Message)
      → is_awaiting to text m ≡ true
      → IsLegal s m
      → IsLegal s (record m { status = "delivered to UE" })
  unfolding is_awaiting
  is_awaiting-IsLegal to text m e h =
      ground (arith, eq_iff m.direction "sent", eq_iff "received" "sent", h)

  mark_delivered-IsLegal :
      (to text : String) (ms : List Message)
      → All (IsLegal s) ms
      → All (IsLegal s) (mark_delivered to text ms)
  unfolding mark_delivered
  mark_delivered-IsLegal to text [] h = h
  mark_delivered-IsLegal to text (m ∷ ms) h = elim (Bool-cases (is_awaiting to text m)) [
    | inl e ↦ rw e (is_awaiting-IsLegal to text m e h.0, h.1)
    | inr e ↦ rw e (h.0, mark_delivered-IsLegal to text ms h.1)
  ]

  -- As long as no id was taken twice, an id was taken for one kind of message.
  one_kind :
      (id : ℕ) → length s.tickets < 2 ^ 64 → HasTicket s id outgoing → ¬ HasTicket s id incoming
  one_kind id few (i, h, e) (j, k, f) =
      let same : i ≡ j = omega (arith, get_elem?-lt s.tickets i h, get_elem?-lt s.tickets j k) in
      ground (arith, rw same at h)

  IsLegal-sent :
      (id : ℕ) (m : Message) (status : String)
      → length s.tickets < 2 ^ 64
      → HasTicket s id outgoing
      → m.id ≡ id
      → IsSentStatus status
      → IsLegal s m
      → IsLegal s (record m { status = status })
  IsLegal-sent id m status few t e k (inl (a, b, c)) = inl (a, k, c)
  IsLegal-sent id m status few t e k (inr (a, b, c)) =
      absurd (one_kind id few t (subst (λ n. HasTicket s n incoming) e c))

  mark_tracked-IsLegal :
      (id : ℕ) (ms : List Message)
      → length s.tickets < 2 ^ 64
      → HasTicket s id outgoing
      → All (IsLegal s) ms
      → All (IsLegal s) (mark_tracked id ms)
  unfolding mark_tracked
  mark_tracked-IsLegal id [] few t h = h
  mark_tracked-IsLegal id (m ∷ ms) few t h = elim (Bool-cases (nat_eq m.id id)) [
    | inl e ↦
        rw e (IsLegal-sent id m _ few t ((nat_eq_iff m.id id).0 e) (inr (inr (inr refl))) h.0, h.1)
    | inr e ↦ rw e (h.0, mark_tracked-IsLegal id ms few t h.1)
  ]

  settle_message-IsLegal :
      (id : ℕ) (status : String) (m : Message)
      → IsVerdict status
      → length s.tickets < 2 ^ 64
      → HasTicket s id outgoing
      → IsLegal s m
      → IsLegal s (settle_message id status m)
  unfolding settle_message
  settle_message-IsLegal id status m v few t h =
      elim (Bool-cases (nat_eq m.id id && not (m.status == "delivered to UE"))) [
        | inl e ↦
            let same : m.id ≡ id = ground (arith, nat_eq_iff m.id id) in
            let state : IsSentStatus status = ground arith in
            rw e (IsLegal-sent id m status few t same state h)
        | inr e ↦ rw e h
      ]

module _ (s : System) where
  IsNew-IsLegal : (m : Message) → IsNew s m → IsLegal s m
  IsNew-IsLegal m (inl (a, b, c)) = inl (a, inl b, c)
  IsNew-IsLegal m (inr h) = inr h

  pub add_message-IsLegal :
      (m : Message) (p : Phone) → IsNew s m → IsLegalPhone s p → IsLegalPhone s (add_message m p)
  unfolding add_message
  add_message-IsLegal m p new h = (
    length-keep_last 100 (p.messages ++ m ∷ []),
    All-keep_last (IsLegal s) 100 (p.messages ++ m ∷ [])
        (All-append (IsLegal s) p.messages (m ∷ []) h.1 (IsNew-IsLegal m new, tt)),
  )

  pub confirm_sender-IsLegal :
      (from text to : String) (p : Phone)
      → IsLegalPhone s p
      → IsLegalPhone s (confirm_sender from text to p)
  unfolding confirm_sender
  confirm_sender-IsLegal from text to p h = ground (
    arith,
    length-mark_delivered to text p.messages,
    mark_delivered-IsLegal s to text p.messages h.1,
  )

  pub settle-IsLegal :
      (id : ℕ) (status : String) (p : Phone)
      → IsVerdict status
      → length s.tickets < 2 ^ 64
      → HasTicket s id outgoing
      → IsLegalPhone s p
      → IsLegalPhone s (settle id status p)
  unfolding settle
  settle-IsLegal id status p v few t h = (
    rw (length-map p.messages (settle_message id status)) h.0,
    All-map (IsLegal s) p.messages _ (λ m. settle_message-IsLegal s id status m v few t) h.1,
  )

  pub track_on-IsLegal :
      (id : ℕ) (p : Phone)
      → length s.tickets < 2 ^ 64
      → HasTicket s id outgoing
      → IsLegalPhone s p
      → IsLegalPhone s (track_on id p)
  track_on-IsLegal id p few t h =
      (rw (length-mark_tracked id p.messages) h.0, mark_tracked-IsLegal s id p.messages few t h.1)

  pub set_error-IsLegal :
      (err : Option String) (p : Phone) → IsLegalPhone s p → IsLegalPhone s (set_error err p)
  unfolding set_error
  set_error-IsLegal none p h = h
  set_error-IsLegal (some e) p h = h

-- More tickets leave every message legal.
pub IsLegalPhone-mono : {s t : System} (p : Phone) → Step s t → IsLegalPhone s p → IsLegalPhone t p
IsLegalPhone-mono {s} {t} p st h = (h.0, All-mono p.messages h.1)
  where
    legal : (m : Message) → IsLegal s m → IsLegal t m
    legal m (inl (a, b, k)) = inl (a, b, Step-HasTicket m.id st k)
    legal m (inr (a, b, k)) = inr (a, b, Step-HasTicket m.id st k)

    All-mono : (ms : List Message) → All (IsLegal s) ms → All (IsLegal t) ms
    All-mono = All-imp legal
