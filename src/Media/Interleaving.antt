-- ===== src/Media/Interleaving.antt =====
-- The goroutine of a call among the others.
use telco_helm_charts.Common.{
  ℕ, zero, suc, ◌+◌, ◌%◌, ◌^◌, difference, String, Option, none, some, List, [], ◌∷◌,
}
use telco_helm_charts.Dashboard.Steps
use telco_helm_charts.Dashboard.Steps.{Ticket, Reach, IsCounted, packets_on}
use telco_helm_charts.Exec.{Env, Exec}
use telco_helm_charts.Exec.Runs.{Interleaves, Runs, Runs-pure, Runs-ask, Runs-update}
use telco_helm_charts.Exec.Take.{IsCounted-stable, IsCounted-bind, Runs-log, rules}
use telco_helm_charts.Action.{id_of}
use telco_helm_charts.Media.{
  Rtp, silent, Wake, over, tick, Stream, Voice, rebase, count_received, count_sent, enter_flow,
  transmit, sent, on_flows, on_stream, on_wake, go_on, media_round, media_from, media,
}

module _ {World : Type 0} {env : Env World} (calm : Interleaves env) (voice : Voice World) (i c : ℕ)
    (number : ℕ → String) where
  enter_flow-Runs : (qfi : ℕ) → Runs IsCounted (enter_flow env voice i c number qfi)
  unfolding enter_flow rebase
  enter_flow-Runs qfi =
      IsCounted-bind _ _
        (Runs-update IsCounted-stable calm _
          (λ w k d v. Steps.packets i (λ p. p.tx) (λ p. voice.downlink w i qfi) (λ p. p.rx)))
        (λ _. Runs-log calm (id_of i) _)

  sent-Runs : (r : Rtp) (err : Option String) → Runs IsCounted (sent env voice i c r err)
  unfolding count_sent
  sent-Runs r none =
      IsCounted-bind _ _
        (Runs-update IsCounted-stable calm _
          (λ w k d v. Steps.packets i (λ p. (p.tx + 1) % 2 ^ 64) (λ p. p.rx_base) (λ p. p.rx)))
        (λ _. Runs-pure _)
  sent-Runs r (some err) = Runs-pure _

  transmit-Runs :
      (qfi : ℕ) (stream : Stream) (r : Rtp) → Runs IsCounted (transmit env voice i c qfi stream r)
  unfolding transmit count_received
  transmit-Runs qfi stream r =
      IsCounted-bind _ _
        (Runs-update IsCounted-stable calm _ (λ w k d v.
          Steps.packets i (λ p. p.tx) (λ p. p.rx_base)
            (λ p. difference (voice.downlink w i qfi) p.rx_base)))
        (λ _. search (rules, sent-Runs) depth 9)

  on_flows-Runs :
      (stream : Stream) (r : Rtp) (flows : List ℕ)
      → Runs IsCounted (on_flows env voice i c number stream r flows)
  on_flows-Runs stream r [] = Runs-pure _
  on_flows-Runs stream r (qfi ∷ rest) = search (rules, enter_flow-Runs, transmit-Runs)

  on_stream-Runs :
      (r : Rtp) (stream : Option Stream) → Runs IsCounted (on_stream env voice i c number r stream)
  on_stream-Runs r none = Runs-pure _
  on_stream-Runs r (some stream) = search (rules, on_flows-Runs)

  on_wake-Runs : (r : Rtp) (wake : Wake) → Runs IsCounted (on_wake env voice i c number r wake)
  on_wake-Runs r (over text) = IsCounted-bind _ _ (Runs-log calm (id_of i) _) (λ _. Runs-pure _)
  on_wake-Runs r tick = search (rules, on_stream-Runs) depth 9

  go_on-Runs :
      (later : Rtp → Exec World (Option Rtp)) (o : Option Rtp)
      → ((q : Rtp) → Runs IsCounted (later q))
      → Runs IsCounted (go_on env voice i c number later o)
  go_on-Runs later none h = Runs-pure _
  go_on-Runs later (some q) h = h q

  media_from-Runs :
      (rounds : ℕ) (r : Rtp) → Runs IsCounted (media_from env voice i c number rounds r)
  unfolding media_from media_round
  media_from-Runs zero r = Runs-pure _
  media_from-Runs (suc rounds) r =
      IsCounted-bind _ _ (IsCounted-bind _ _ (Runs-ask _) (λ wake. on_wake-Runs r wake))
        (λ o. go_on-Runs _ o (λ q. media_from-Runs rounds q))

  pub media-Runs : (rounds : ℕ) → Runs IsCounted (media env voice i c number rounds)
  unfolding media
  media-Runs rounds = media_from-Runs rounds silent
