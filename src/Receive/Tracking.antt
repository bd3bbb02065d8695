-- ===== src/Receive/Tracking.antt =====
-- How `trackDelivery` of phone_gnb.go ends.
use telco_helm_charts.Common.{
  ℕ, zero, suc, ◌<◌, String, true, none, some, List, ◌≡◌, arith, ◌∙◌, ap,
}
use telco_helm_charts.Dashboard.State.{Message, Dashboard, on_phone}
use telco_helm_charts.Dashboard.Messages.{find_message, track_on}
use telco_helm_charts.Exec.{Peer, Task, Env, pure, ◌>>=◌, ask, locked}
use telco_helm_charts.Receive.{is_delivered, msisdn_of, messages_of, track_round, track_delivery}

-- The peer fails to answer so many times in a row, from one world to another.
pub data Fails {World : Type 0} (env : Env World) : ℕ → World → World → Type 0 where
  at_once : {w : World} → Fails env 0 w w
  again :
      {n : ℕ} {w v u : World}
      → env.fetch_state w ≡ (none, v)
      → Fails env n v u
      → Fails env (suc n) w u

module _ {World : Type 0} (env : Env World) (i id : ℕ) (text to : String)
    (quiet : (d : Dashboard) (w : World) → env.others d w ≡ (d, w)) where
  -- No other goroutine interferes, and the phone keeps the message. If the peer, when it
  -- answers for the first time and before the attempts are used up, shows that it received the
  -- message, the dashboard afterwards is the one before with the message of that id marked as
  -- delivered.
  pub track_delivery-track_on :
      (attempts n : ℕ) (d : Dashboard) (w : World) (spawned : List Task) {u v : World}
      {peers : List Peer} {sent : Message}
      → n < attempts
      → Fails env n w u
      → env.fetch_state u ≡ (some peers, v)
      → find_message id (messages_of i d) ≡ some sent
      → is_delivered (msisdn_of i d) text to sent peers ≡ true
      → (track_delivery env attempts i id text to
          (record { dash = d; world = w; spawned = spawned })).1.dash
        ≡ on_phone i (track_on id) d
  unfolding track_delivery ask locked ◌>>=◌ pure
  track_delivery-track_on zero n d w spawned few fails answer there received = ground arith
  track_delivery-track_on (suc k) zero d w spawned few at_once answer there received =
      ap
        (λ r.
          (track_round env i id text to (track_delivery env k i id text to) r.0
            (record { dash = d; world = r.1; spawned = spawned })).1.dash)
        answer
      ∙ simp (quiet, there, received)
  track_delivery-track_on (suc k) (suc n) d w spawned few (again {v} e fails) answer there
        received =
      ap
        (λ r.
          (track_round env i id text to (track_delivery env k i id text to) r.0
            (record { dash = d; world = r.1; spawned = spawned })).1.dash)
        e
      ∙ track_delivery-track_on k n d v spawned (omega arith) fails answer there received
