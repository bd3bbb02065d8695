-- ===== src/Dashboard/Messages/Delivery.antt =====
-- How a delivery is confirmed to the phone that sent the message.
use telco_helm_charts.Common.{
  ℕ, String, true, false, List, [], ◌∷◌, ◌++◌, map, ◌≡◌, refl, ◌≢◌, ◌⊎◌, inl, inr, All, Bool-cases,
  arith, eq_iff, nat_eq, nat_eq_iff, ap, sym, ◌∙◌,
}
use telco_helm_charts.Dashboard.State.{Message}
use telco_helm_charts.Dashboard.Messages.{is_awaiting, mark_delivered, settle_message}

-- The messages of a list, told apart at the first one that waits for its confirmation.
pub record Marked (to text : String) (ms ns : List Message) : Type 0 where
  pub before : List Message
  pub found : Message
  pub after : List Message
  pub passed : All (λ m. is_awaiting to text m ≡ false) before
  pub waits : is_awaiting to text found ≡ true
  pub was : ms ≡ before ++ found ∷ after
  pub is_now : ns ≡ before ++ record found { status = "delivered to UE" } ∷ after

-- What the message with an id may be while its submission is under way.
abbrev pub IsSubmitted : ℕ → Message → Type 0
IsSubmitted id m =
    (m.id ≢ id)
    ⊎ (m.status ≡ "submitting")
    ⊎ (m.status ≡ "accepted by SMSC")
    ⊎ (m.status ≡ "delivered to UE")

settle_message_other :
    (id : ℕ) (status : String) (m : Message)
    → nat_eq m.id id ≡ false
    → settle_message id status m ≡ m
unfolding settle_message
settle_message_other id status m h = rw h

settle_message_done :
    (id : ℕ) (status : String) (m : Message)
    → m.status ≡ "delivered to UE"
    → settle_message id status m ≡ m
unfolding settle_message
settle_message_done id status m h = ground (arith, eq_iff m.status "delivered to UE")

pub settle_message_now :
    (id : ℕ) (status : String) (m : Message)
    → m.id ≡ id
    → m.status ≢ "delivered to UE"
    → settle_message id status m ≡ record m { status = status }
unfolding settle_message
settle_message_now id status m e h =
    ground (arith, eq_iff m.status "delivered to UE", nat_eq_iff m.id id)

-- Both states of a message that waits are as good as each other.
is_awaiting_status :
    (to text : String) (m : Message)
    → (m.status ≡ "submitting") ⊎ (m.status ≡ "accepted by SMSC")
    → is_awaiting to text (record m { status = "accepted by SMSC" }) ≡ is_awaiting to text m
unfolding is_awaiting
is_awaiting_status to text m (inl h) = simp h
is_awaiting_status to text m (inr h) = simp h

pub submitting-ne-delivered : ◌≢◌ {A = String} "submitting" "delivered to UE"
submitting-ne-delivered = ground (arith, eq_iff "submitting" "delivered to UE")

accepted-ne-delivered : ◌≢◌ {A = String} "accepted by SMSC" "delivered to UE"
accepted-ne-delivered = ground (arith, eq_iff "accepted by SMSC" "delivered to UE")

is_awaiting-settle_now :
    (to text : String) (id : ℕ) (m : Message)
    → m.id ≡ id
    → (m.status ≡ "submitting") ⊎ (m.status ≡ "accepted by SMSC") ⊎ (m.status ≡ "delivered to UE")
    → is_awaiting to text (settle_message id "accepted by SMSC" m) ≡ is_awaiting to text m
is_awaiting-settle_now to text id m e (inl h) =
    rw (settle_message_now id _ m e (λ k. submitting-ne-delivered (sym h ∙ k)))
      (is_awaiting_status to text m (inl h))
is_awaiting-settle_now to text id m e (inr (inl h)) =
    rw (settle_message_now id _ m e (λ k. accepted-ne-delivered (sym h ∙ k)))
      (is_awaiting_status to text m (inr h))
is_awaiting-settle_now to text id m e (inr (inr h)) = rw (settle_message_done id _ m h)

is_awaiting-settle :
    (to text : String) (id : ℕ) (m : Message)
    → IsSubmitted id m
    → is_awaiting to text (settle_message id "accepted by SMSC" m) ≡ is_awaiting to text m
is_awaiting-settle to text id m (inl other) =
    rw (settle_message_other id "accepted by SMSC" m (ground (arith, nat_eq_iff m.id id)))
is_awaiting-settle to text id m (inr h) = elim (Bool-cases (nat_eq m.id id)) [
  | inl e ↦ is_awaiting-settle_now to text id m ((nat_eq_iff m.id id).0 e) h
  | inr e ↦ rw (settle_message_other id _ m e)
]

-- A confirmation after the settlement, and before it.
delivered-settle :
    (id : ℕ) (status : String) (m : Message)
    → ◌≡◌ {A = Message}
        (record (settle_message id status m) { status = "delivered to UE" })
        (settle_message id status (record m { status = "delivered to UE" }))
unfolding settle_message
delivered-settle id status m = ground arith

-- The answer that a message was accepted and the confirmation of a delivery come from different
-- goroutines. Whichever comes first, the messages are the same afterwards, if each message with
-- the id of the answer is being submitted, accepted or delivered.
mark_delivered-settle :
    (to text : String) (id : ℕ) (ms : List Message)
    → All (IsSubmitted id) ms
    → mark_delivered to text (map (settle_message id "accepted by SMSC") ms)
      ≡ map (settle_message id "accepted by SMSC") (mark_delivered to text ms)
unfolding mark_delivered
mark_delivered-settle to text id [] h = refl
mark_delivered-settle to text id (m ∷ ms) h = elim (Bool-cases (is_awaiting to text m)) [
  | inl e ↦
      rw (is_awaiting-settle to text id m h.0, e)
        (ap (λ x. x ∷ map (settle_message id "accepted by SMSC") ms) (delivered-settle id _ m))
  | inr e ↦
      rw (is_awaiting-settle to text id m h.0, e)
        (ap (λ l. settle_message id "accepted by SMSC" m ∷ l)
          (mark_delivered-settle to text id ms h.1))
]
