-- ===== src/Media.antt =====
-- `media` of server.go: the goroutine that sends RTP packets while a call is confirmed, and counts
-- what is sent and received. The call, the radio and the ticker are a parameter.
pub mod Sending
pub mod Numbering
pub mod Interleaving
use telco_helm_charts.Common.{
  ℕ, zero, suc, ◌+◌, ◌*◌, ◌/◌, ◌%◌, ◌^◌, difference, String, Bool, true, false, not, Option, none,
  some, List, [], ◌∷◌, ◌++◌, nat_eq, if◌then◌else◌, ◌<>◌,
}
use telco_helm_charts.Dashboard.State.{Phone, event, on_phone}
use telco_helm_charts.Exec.{
  CallState, confirmed, Env, Exec, pure, ◌>>=◌, ◌>>◌, observe, ask, update,
}
use telco_helm_charts.Action.{id_of}

-- The variables of the goroutine: `uint16`, `uint32` and `uint8`.
pub record Rtp : Type 0 where
  pub seq : ℕ
  pub stamp : ℕ
  pub last_qfi : ℕ

abbrev pub silent : Rtp
silent = record { seq = 0; stamp = 0; last_qfi = 0 }

-- The low bytes of a number, the highest first: `binary.BigEndian.PutUint16` and `PutUint32`.
abbrev pub big_endian : (count : ℕ) → ℕ → List ℕ
big_endian zero n = []
big_endian (suc k) n = n / 2 ^ (8 * k) % 256 ∷ big_endian k n

abbrev pub zeros : ℕ → List ℕ
zeros zero = []
zeros (suc n) = 0 ∷ zeros n

-- The 32 bytes of a packet: the header, and silence.
unfoldable pub packet : Rtp → List ℕ
packet r = 128 ∷ 116 ∷ big_endian 2 r.seq ++ big_endian 4 r.stamp ++ big_endian 4 1 ++ zeros 20

unfoldable pub advance : Rtp → Rtp
advance r = record r { seq = (r.seq + 1) % 2 ^ 16; stamp = (r.stamp + 320) % 2 ^ 32 }

-- What `select` found: the call is over, with the text of its end, or the ticker ticked.
pub data Wake : Type 0 where
  over : String → Wake
  tick : Wake

-- The two ends of the audio stream, as they are printed.
pub record Stream : Type 0 where
  pub local_address : String
  pub remote_address : String

-- `stream` is none if there is no audio stream or its remote address is not valid; `has_upf` tells
-- whether the session's UPF address can be parsed. A flow is a QFI.
pub record Voice (World : Type 0) : Type 0 where
  pub wake : (call : ℕ) → World → Wake × World
  pub stream : World → (call : ℕ) → Option Stream
  pub flows : World → (phone : ℕ) → List ℕ
  pub downlink : World → (phone qfi : ℕ) → ℕ
  pub has_upf : World → (phone : ℕ) → Bool
  pub send : (phone qfi : ℕ) → Stream → (bytes : List ℕ) → World → Option String × World

abbrev pub is_confirmed : CallState → Bool
is_confirmed confirmed = true
is_confirmed _ = false

module _ {World : Type 0} (env : Env World) (voice : Voice World) (i c : ℕ) where
  unfoldable pub rebase : ℕ → World → Phone → Phone
  rebase qfi w p = record p { rx_base = voice.downlink w i qfi }

  unfoldable pub count_received : ℕ → World → Phone → Phone
  count_received qfi w p = record p { rx = difference (voice.downlink w i qfi) p.rx_base }

  -- `p.tx.Add(1)`
  unfoldable pub count_sent : Phone → Phone
  count_sent p = record p { tx = (p.tx + 1) % 2 ^ 64 }

  -- A flow that was not used before.
  unfoldable pub enter_flow : (number : ℕ → String) → ℕ → Exec World (Unit {0})
  unfolding rebase
  enter_flow number qfi = do
    update env (λ w. on_phone i (rebase qfi w))
    update env (λ w d. event (env.now w) (id_of i d) ("Voice QoS active on QFI " <> number qfi) d)

  abbrev pub sent : Rtp → Option String → Exec World (Option Rtp)
  sent r none = do update env (λ w. on_phone i count_sent); pure (some r)
  sent r (some err) = pure (some r)

  abbrev pub send_to : ℕ → Stream → Rtp → Exec World (Option Rtp)
  send_to qfi stream r = do err ← ask (voice.send i qfi stream (packet r)); sent (advance r) err

  -- The packet is sent if there is a UPF; without one the goroutine ends.
  unfoldable pub transmit : ℕ → Stream → Rtp → Exec World (Option Rtp)
  unfolding count_received count_sent packet advance
  transmit qfi stream r = do
    update env (λ w. on_phone i (count_received qfi w))
    has_upf ← observe env (λ w. voice.has_upf w i)
    if has_upf then send_to qfi stream r else pure none

  module _ (number : ℕ → String) where
    abbrev pub on_flows : Stream → Rtp → List ℕ → Exec World (Option Rtp)
    on_flows stream r [] = pure (some r)
    on_flows stream r (qfi ∷ rest) =
        if not (nat_eq r.last_qfi qfi)
        then enter_flow number qfi >> transmit qfi stream (record r { last_qfi = qfi })
        else transmit qfi stream r

    abbrev pub on_stream : Rtp → Option Stream → Exec World (Option Rtp)
    on_stream r none = pure (some r)
    on_stream r (some stream) = do
      flows ← observe env (λ w. voice.flows w i)
      on_flows stream r flows

    abbrev pub on_call : Rtp → Exec World (Option Rtp)
    on_call r = do stream ← observe env (λ w. voice.stream w c); on_stream r stream

    abbrev pub on_wake : Rtp → Wake → Exec World (Option Rtp)
    on_wake r (over text) = do
      update env (λ w d. event (env.now w) (id_of i d) ("Call ended: " <> text) d)
      pure none
    on_wake r tick = do
      state ← observe env (λ w. env.call_state w c)
      if is_confirmed state then on_call r else pure (some r)

    -- A round of the loop: the variables after it, or none if the goroutine ends.
    unfoldable pub media_round : Rtp → Exec World (Option Rtp)
    unfolding enter_flow transmit
    media_round r = do wake ← ask (voice.wake c); on_wake r wake

    abbrev pub go_on : (Rtp → Exec World (Option Rtp)) → Option Rtp → Exec World (Option Rtp)
    go_on later none = pure none
    go_on later (some q) = later q

    -- At most as many rounds as are given.
    unfoldable pub media_from : (rounds : ℕ) → Rtp → Exec World (Option Rtp)
    unfolding media_round
    media_from zero r = pure (some r)
    media_from (suc n) r = do next ← media_round r; go_on (λ q. media_from n q) next

    unfoldable pub media : (rounds : ℕ) → Exec World (Option Rtp)
    unfolding media_from
    media rounds = media_from rounds silent
