-- ===== src/Dashboard/Messages.antt =====
-- server.go and phone_gnb.go: the loops that change the status of stored messages, and the other
-- sections that a goroutine runs under the lock of one phone.
pub mod Delivery
use telco_helm_charts.Common.{
  ℕ, String, Bool, not, ◌&&◌, ◌||◌, Option, none, some, List, [], ◌∷◌, map, ltb, nat_eq,
  if◌then◌else◌, ◌==◌,
}
use telco_helm_charts.Dashboard.State.{Message, Phone, Dashboard}

-- The condition of the loop of `receiveSMS` over a sender's messages.
unfoldable pub is_awaiting : String → String → Message → Bool
is_awaiting peer text sent =
    sent.direction == "sent"
    && sent.peer == peer
    && sent.text == text
    && (sent.status == "submitting" || sent.status == "accepted by SMSC")

-- That loop: the first message that fits is marked, then `break`.
unfoldable pub mark_delivered : String → String → List Message → List Message
mark_delivered peer text [] = []
mark_delivered peer text (sent ∷ rest) =
    if is_awaiting peer text sent
    then record sent { status = "delivered to UE" } ∷ rest
    else sent ∷ mark_delivered peer text rest

-- One round of the loop of `receiveSMS` over the phones.
unfoldable pub confirm_sender : String → String → String → Phone → Phone
unfolding mark_delivered
confirm_sender from text to sender =
    if sender.msisdn == from
    then record sender { messages = mark_delivered to text sender.messages }
    else sender

-- The loop after `Submit`: every message with the id, unless it was delivered meanwhile.
unfoldable pub settle_message : ℕ → String → Message → Message
settle_message id status m =
    if nat_eq m.id id && not (m.status == "delivered to UE")
    then record m { status = status }
    else m

unfoldable pub settle : ℕ → String → Phone → Phone
unfolding settle_message
settle id status p = record p { messages = map (settle_message id status) p.messages }

-- `trackDelivery` searches the message with the id and stops at the first.
unfoldable pub find_message : ℕ → List Message → Option Message
find_message id [] = none
find_message id (m ∷ ms) = if nat_eq m.id id then some m else find_message id ms

-- `sent.Status = "delivered to UE"` through the pointer that the search found.
unfoldable pub mark_tracked : ℕ → List Message → List Message
mark_tracked id [] = []
mark_tracked id (m ∷ ms) =
    if nat_eq m.id id then record m { status = "delivered to UE" } ∷ ms else m ∷ mark_tracked id ms

abbrev pub track_on : ℕ → Phone → Phone
track_on id p = record p { messages = mark_tracked id p.messages }

unfoldable pub set_error : Option String → Phone → Phone
set_error none p = record p { error_text = "" }
set_error (some err) p = record p { error_text = err }
