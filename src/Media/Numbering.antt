-- ===== src/Media/Numbering.antt =====
-- The sequence numbers and time stamps of the packets.
use telco_helm_charts.Common.{
  ℕ, zero, suc, ◌+◌, ◌*◌, ◌/◌, ◌%◌, ◌^◌, ◌<◌, ◌≤◌, String, Option, none, some, List, [], ◌∷◌, ◌++◌,
  length, get_or, ◌≡◌, ◌⊎◌, inl, inr, refl, ap, ◌∙◌, arith, Bool-cases, nat_eq, not,
}
use telco_helm_charts.Exec.{Env, State, Exec, ◌>>=◌, update}
use telco_helm_charts.Media.Sending.{
  IsLogged, Sends, Sends-pure, Sends-then, Sends-imp, Sends-quiet, Sends-one, Sends-if,
  update-quiet, observe-quiet, wake-quiet, send-logged,
}
use telco_helm_charts.Media.{
  Rtp, silent, packet, advance, Wake, over, tick, Stream, Voice, transmit, sent, on_flows,
  on_stream, on_wake, is_confirmed, enter_flow, go_on, media_round, media_from, media,
}

-- What a receiver reads in the header of a packet (RFC 3550).
pub record Header : Type 0 where
  pub version : ℕ
  pub payload_type : ℕ
  pub sequence : ℕ
  pub timestamp : ℕ
  pub source : ℕ

abbrev pub byte : List ℕ → ℕ → ℕ
byte bytes i = get_or bytes i 0

unfoldable pub read : List ℕ → Header
read bytes = record {
  version = byte bytes 0 / 64;
  payload_type = byte bytes 1 % 128;
  sequence = byte bytes 2 * 256 + byte bytes 3;
  timestamp = byte bytes 4 * 2 ^ 24 + byte bytes 5 * 2 ^ 16 + byte bytes 6 * 2 ^ 8 + byte bytes 7;
  source = byte bytes 8 * 2 ^ 24 + byte bytes 9 * 2 ^ 16 + byte bytes 10 * 2 ^ 8 + byte bytes 11;
}

-- The header of packet `n`, counted from 0.
abbrev pub header_of : ℕ → Header
header_of n = record {
  version = 2;
  payload_type = 116;
  sequence = n % 2 ^ 16;
  timestamp = 320 * n % 2 ^ 32;
  source = 1;
}

pack16 : (x : ℕ) → x < 2 ^ 16 → x / 2 ^ 8 % 256 * 256 + x / 2 ^ 0 % 256 ≡ x
pack16 x h = omega arith

pack32 :
    (x : ℕ)
    → x < 2 ^ 32
    → x / 2 ^ 24 % 256 * 2 ^ 24
        + x / 2 ^ 16 % 256 * 2 ^ 16
        + x / 2 ^ 8 % 256 * 2 ^ 8
        + x / 2 ^ 0 % 256
      ≡ x
pack32 x h = omega arith

-- `n` packets were built.
abbrev pub IsAfter : ℕ → Rtp → Type 0
IsAfter n r = (r.seq ≡ n % 2 ^ 16) × (r.stamp ≡ 320 * n % 2 ^ 32)

advance-IsAfter : (n : ℕ) (r : Rtp) → IsAfter n r → IsAfter (suc n) (advance r)
unfolding advance
advance-IsAfter n r (seq, stamp) = (omega arith, omega arith)

abbrev with_numbers : ℕ → ℕ → Header
with_numbers sequence timestamp = record {
  version = 2;
  payload_type = 116;
  sequence = sequence;
  timestamp = timestamp;
  source = 1;
}

read-packet :
    (n : ℕ) (r : Rtp) → IsAfter n r → (read (packet r) ≡ header_of n) × (length (packet r) ≡ 32)
unfolding read packet
read-packet n r (seq, stamp) =
    let low : r.seq < 2 ^ 16 = omega arith in
    let small : r.stamp < 2 ^ 32 = omega arith in
    (
      ap (λ x. with_numbers x (read (packet r)).timestamp) (pack16 r.seq low ∙ seq)
          ∙ ap (λ x. with_numbers (n % 2 ^ 16) x) (pack32 r.stamp small ∙ stamp),
      refl,
    )

-- Packets that are numbered from `n` on: the header of each, and its 32 bytes.
pub AreNumbered : (n : ℕ) → List (List ℕ) → Type 0
AreNumbered n [] = Unit
AreNumbered n (p ∷ ps) = ((read p ≡ header_of n) × (length p ≡ 32)) × AreNumbered (suc n) ps

-- A round hands over packet `n` or none, and the goroutine goes on with the number that follows; or
-- it hands nothing over and ends.
abbrev Next : ℕ → Option Rtp → List (List ℕ) → Type 0
Next n none ps = ps ≡ []
Next n (some q) ps =
    ((ps ≡ []) × IsAfter n q)
    ⊎ ((p : List ℕ) × (ps ≡ p ∷ [])
        × ((read p ≡ header_of n) × (length p ≡ 32))
        × IsAfter (suc n) q)

abbrev Numbered : (n rounds : ℕ) → Option Rtp → List (List ℕ) → Type 0
Numbered n rounds o ps = (length ps ≤ rounds) × AreNumbered n ps

module _ {World : Type 0} (env : Env World) (voice : Voice World) (log : World → List (List ℕ))
    (logged : IsLogged env voice log) (i c : ℕ) (number : ℕ → String) where
  sent-Next :
      (n : ℕ) (p : List ℕ) (r : Rtp) (err : Option String)
      → (read p ≡ header_of n) × (length p ≡ 32)
      → IsAfter (suc n) r
      → Sends log (sent env voice i c r err) (λ o ps. Next n o (p ∷ ps))
  sent-Next n p r none numbered h =
      Sends-quiet log _ _ (update-quiet log logged _)
        (λ _. Sends-pure log _ (inr (p, refl, numbered, h)))
  sent-Next n p r (some err) numbered h = Sends-pure log _ (inr (p, refl, numbered, h))

  transmit-Next :
      (n : ℕ) (r : Rtp) (qfi : ℕ) (stream : Stream)
      → IsAfter n r
      → Sends log (transmit env voice i c qfi stream r) (Next n)
  unfolding transmit
  transmit-Next n r qfi stream h = Sends-quiet log _ _ (update-quiet log logged _) λ _.
      Sends-quiet log _ _ (observe-quiet log logged _) λ has_upf.
        Sends-if log has_upf _ _
          (Sends-one log (packet r) _ _ (send-logged log logged i qfi stream (packet r)) λ err.
            sent-Next n (packet r) (advance r) err (read-packet n r h) (advance-IsAfter n r h))
          (Sends-pure log _ refl)

  enter_flow-quiet :
      (qfi : ℕ) (s : State World)
      → log (enter_flow env voice i c number qfi s).1.world ≡ log s.world
  unfolding enter_flow ◌>>=◌
  enter_flow-quiet qfi s =
      update-quiet log logged _ (update env _ s).1 ∙ update-quiet log logged _ s

  on_flows-Next :
      (n : ℕ) (r : Rtp) (stream : Stream) (flows : List ℕ)
      → IsAfter n r
      → Sends log (on_flows env voice i c number stream r flows) (Next n)
  on_flows-Next n r stream [] h = Sends-pure log _ (inl (refl, h))
  on_flows-Next n r stream (qfi ∷ rest) h = elim (Bool-cases (not (nat_eq r.last_qfi qfi))) [
    | inl e ↦ simp e (
        Sends-quiet log _ _ (enter_flow-quiet qfi)
          (λ _. transmit-Next n (record r { last_qfi = qfi }) qfi stream h))
    | inr e ↦ simp e (transmit-Next n r qfi stream h)
  ]

  on_stream-Next :
      (n : ℕ) (r : Rtp) (stream : Option Stream)
      → IsAfter n r
      → Sends log (on_stream env voice i c number r stream) (Next n)
  on_stream-Next n r none h = Sends-pure log _ (inl (refl, h))
  on_stream-Next n r (some stream) h =
      Sends-quiet log _ _ (observe-quiet log logged _) (λ flows. on_flows-Next n r stream flows h)

  on_wake-Next :
      (n : ℕ) (r : Rtp) (wake : Wake)
      → IsAfter n r
      → Sends log (on_wake env voice i c number r wake) (Next n)
  on_wake-Next n r (over text) h =
      Sends-quiet log _ _ (update-quiet log logged _) (λ _. Sends-pure log _ refl)
  on_wake-Next n r tick h = Sends-quiet log _ _ (observe-quiet log logged _) λ state.
      Sends-if log (is_confirmed state) _ _
        (Sends-quiet log _ _ (observe-quiet log logged _) (λ stream. on_stream-Next n r stream h))
        (Sends-pure log _ (inl (refl, h)))

  go_on-Numbered :
      (rounds n : ℕ) (later : Rtp → Exec World (Option Rtp))
      → ((m : ℕ) (q : Rtp) → IsAfter m q → Sends log (later q) (Numbered m rounds))
      → (o : Option Rtp) (ps : List (List ℕ)) → Next n o ps
      → Sends log
          (go_on env voice i c number later o)
          (λ o qs. Numbered n (suc rounds) o (ps ++ qs))
  unfolding AreNumbered
  go_on-Numbered rounds n later k none ps e = Sends-pure log _ (rw e (omega arith, tt))
  go_on-Numbered rounds n later k (some q) ps (inl (e, h)) =
      rw e (Sends-imp log _ (λ o qs x. (omega (arith, x.0), x.1)) (k n q h))
  go_on-Numbered rounds n later k (some q) ps (inr (p, e, numbered, h)) =
      rw e (Sends-imp log _ (λ o qs x. (omega (arith, x.0), (numbered, x.1))) (k (suc n) q h))

  media_from-Numbered :
      (rounds n : ℕ) (r : Rtp)
      → IsAfter n r
      → Sends log (media_from env voice i c number rounds r) (Numbered n rounds)
  unfolding media_from media_round AreNumbered
  media_from-Numbered zero n r h = Sends-pure log _ (omega arith, tt)
  media_from-Numbered (suc rounds) n r h =
      Sends-then log _ _
        (Sends-quiet log _ _ (wake-quiet log logged c) (λ wake. on_wake-Next n r wake h))
        (go_on-Numbered rounds n _ (λ m q. media_from-Numbered rounds m q))

  -- The packets that the goroutine hands to the radio in some rounds are at most as many as the
  -- rounds, and are numbered from 0 on in the order in which they are handed over, across changes of
  -- the flow and errors of the radio: packet `n` has 32 bytes, and its header reads version 2, payload
  -- type 116, `n` modulo 2 ^ 16 as the sequence number, 320 times `n` modulo 2 ^ 32 as the time stamp,
  -- and source 1. The log is that of the radio for this goroutine: it grows by each packet that is
  -- handed over, and neither waiting nor the other goroutines change it.
  pub media-numbered :
      (rounds : ℕ) (s : State World)
      → (ps : List (List ℕ)) × (log (media env voice i c number rounds s).1.world
          ≡ log s.world ++ ps)
        × (length ps ≤ rounds)
        × AreNumbered 0 ps
  unfolding media
  media-numbered rounds s =
      let (ps, e, (few, numbered)) = (media_from-Numbered rounds 0 silent (refl, refl)).sends s in
      (ps, e, few, numbered)
