-- ===== src/Receive.antt =====
-- The goroutines of server.go that wait for the network (`receiveSMS`, `receiveCalls`) and the one
-- of phone_gnb.go that asks the peer about a message (`trackDelivery`).

pub mod Interleaving
pub mod Tracking
use telco_helm_charts.Common.{
  ℕ, zero, suc, String, Bool, true, false, not, ◌&&◌, ◌||◌, Option, none, some, List, [], ◌∷◌, ltb,
  if◌then◌else◌, ◌==◌, ◌<>◌, get_elem?, length,
}
use telco_helm_charts.Dashboard.State.{
  Message, Phone, Dashboard, event, next_id, add_message, on_phone, start_call,
}
use telco_helm_charts.Dashboard.Messages.{confirm_sender, find_message, track_on}
use telco_helm_charts.Exec.{
  Peer, media, Env, Exec, pure, ◌>>=◌, ◌>>◌, observe, ask, spawn, locked, update,
}
use telco_helm_charts.Action.{call_of, id_of, is_active}
use telco_helm_charts.Mode.{Environment}

-- A short message from the network.
pub record Sms : Type 0 where
  pub from : String
  pub text : String

abbrev pub msisdn_of : ℕ → Dashboard → String
msisdn_of i d = elim (get_elem? d.phones i) [ none ↦ "" | some p ↦ p.msisdn ]

abbrev pub messages_of : ℕ → Dashboard → List Message
messages_of i d = elim (get_elem? d.phones i) [ none ↦ [] | some p ↦ p.messages ]

-- `m.Direction == "received" && m.Peer == … && m.Text == text && !m.At.Before(sent.At)`
unfoldable pub is_receipt : (msisdn text : String) → Message → Message → Bool
is_receipt msisdn text sent m =
    m.direction == "received" && m.peer == msisdn && m.text == text && not (ltb m.at sent.at)

unfoldable pub any_receipt : (msisdn text : String) → Message → List Message → Bool
any_receipt msisdn text sent [] = false
any_receipt msisdn text sent (m ∷ ms) =
    is_receipt msisdn text sent m || any_receipt msisdn text sent ms

-- The loop over the peer's phones that computes `delivered`.
unfoldable pub is_delivered : (msisdn text to : String) → Message → List Peer → Bool
unfolding any_receipt is_receipt
is_delivered msisdn text to sent [] = false
is_delivered msisdn text to sent (p ∷ ps) =
    (p.number == to && any_receipt msisdn text sent p.messages)
    || is_delivered msisdn text to sent ps

module _ {World : Type 0} (env : Env World) where
  unfoldable pub received : ℕ → Sms → World → Message
  received id m w = record {
    id = id;
    direction = "received";
    peer = m.from;
    text = m.text;
    status = "received";
    at = env.now w;
  }

  -- The loop over the phones that were there: `n` of them from index `j` on.
  unfoldable pub confirm_from : (j n : ℕ) → Sms → (to : String) → Exec World (Unit {0})
  confirm_from j zero m to = pure tt
  confirm_from j (suc n) m to = do
    update env (λ w. on_phone j (confirm_sender m.from m.text to))
    confirm_from (suc j) n m to

  -- What comes after the id was taken.
  unfoldable pub receive_as : ℕ → Sms → ℕ → Exec World (Unit {0})
  unfolding received confirm_from
  receive_as i m id = do
    update env (λ w. on_phone i (add_message (received id m w)))
    (n, to) ← locked env (λ w d. ((length d.phones, msisdn_of i d), d))
    confirm_from 0 n m to
    update env (λ w d. event (env.now w) (id_of i d) ("SMS received from " <> m.from) d)

  unfoldable pub receive_sms : ℕ → Sms → Exec World (Unit {0})
  receive_sms i m = do
    id ← locked env (λ w d. (next_id d.next, record d { next = next_id d.next }))
    receive_as i m id

  abbrev pub receive_next : (i : ℕ) → Exec World (Unit {0}) → Option Sms → Exec World (Unit {0})
  receive_next i later none = pure tt
  receive_next i later (some m) = receive_sms i m >> later

  -- The loop of `receiveSMS`, at most as many rounds as are given; `next` waits for a message, and
  -- gives none if that fails.
  unfoldable pub receive_messages :
      (next : ℕ → World → Option Sms × World) → (rounds : ℕ) → ℕ → Exec World (Unit {0})
  receive_messages next zero i = pure tt
  receive_messages next (suc n) i = do
    m ← ask (next i)
    receive_next i (receive_messages next n i) m

  module _ (getenv : Environment) where
    -- `busy`, and the new call's fields if it is false, in one section.
    abbrev pub take_call : ℕ → ℕ → World → Dashboard → Bool × Dashboard
    take_call i c w d =
        if is_active env getenv (call_of i d) w
        then (true, d)
        else (false, on_phone i (start_call c true "Incoming call") d)

    ringing : ℕ → Option String → Exec World (Unit {0})
    ringing i none = pure tt
    ringing i (some err) = update env (λ w d. event (env.now w) (id_of i d) ("Ringing: " <> err) d)

    accept_call : ℕ → ℕ → Exec World (Unit {0})
    unfolding ringing
    accept_call i c = do
      update env (λ w d. event (env.now w) (id_of i d) "Incoming IMS call" d)
      err ← ask (env.ring c)
      ringing i err
      spawn (media i c)

    reject_call : ℕ → Exec World (Unit {0})
    reject_call c = do _ ← ask (env.reject c 486); pure tt

    unfoldable pub receive_call : ℕ → ℕ → Exec World (Unit {0})
    unfolding accept_call reject_call
    receive_call i c = do
      busy ← locked env (take_call i c)
      if busy then reject_call c else accept_call i c

    abbrev pub accept_next : (i : ℕ) → Exec World (Unit {0}) → Option ℕ → Exec World (Unit {0})
    accept_next i later none = pure tt
    accept_next i later (some c) = receive_call i c >> later

    -- The loop of `receiveCalls`; `next` gives none if the channel of the calls is closed.
    unfoldable pub receive_calls :
        (next : ℕ → World → Option ℕ × World) → (rounds : ℕ) → ℕ → Exec World (Unit {0})
    receive_calls next zero i = pure tt
    receive_calls next (suc n) i = do c ← ask (next i); accept_next i (receive_calls next n i) c

  -- What the section does with the message that its search found: true if the loop ends.
  abbrev pub track_found :
      (i id : ℕ) (text to : String) → List Peer → Option Message → Dashboard → Bool × Dashboard
  track_found i id text to peers none d = (true, d)
  track_found i id text to peers (some sent) d =
      if is_delivered (msisdn_of i d) text to sent peers
      then (true, on_phone i (track_on id) d)
      else (false, d)

  -- The section of `trackDelivery` on the answer of the peer.
  abbrev pub track_section :
      (i id : ℕ) (text to : String) → List Peer → Dashboard → Bool × Dashboard
  track_section i id text to peers d =
      track_found i id text to peers (find_message id (messages_of i d)) d

  -- A round, on the decoded answer of the peer if there is one.
  abbrev pub track_round :
      (i id : ℕ) (text to : String)
      → Exec World (Unit {0})
      → Option (List Peer)
      → Exec World (Unit {0})
  track_round i id text to again none = again
  track_round i id text to again (some peers) = do
    stop ← locked env (λ w. track_section i id text to peers)
    if stop then pure tt else again

  -- `attempts` rounds are left.
  unfoldable pub track_delivery : (attempts i id : ℕ) (text to : String) → Exec World (Unit {0})
  track_delivery zero i id text to = pure tt
  track_delivery (suc n) i id text to =
      let again = track_delivery n i id text to in
      do state ← ask env.fetch_state; track_round i id text to again state
