-- ===== src/Dashboard/Safety.antt =====
-- The invariant of the dashboard holds in every state that its goroutines can reach.
use telco_helm_charts.Common.{
  ℕ, ◌<◌, ◌^◌, String, [], ◌∷◌, ◌++◌, ◌≡◌, length, arith, length-keep_last, All-append, All-modify,
  All-imp,
}
use telco_helm_charts.Dashboard.State.{Phone, event, set_problem, on_phone, start_call}
use telco_helm_charts.Dashboard.Steps.{
  System, Step, log, problem, attach, start, take_id, store, confirm, verdict, track, call, finish,
  packets, Reach, here, next, Step-le,
}
use telco_helm_charts.Dashboard.Invariant.{
  IsLegalPhone, IsValid, add_message-IsLegal, confirm_sender-IsLegal, settle-IsLegal,
  track_on-IsLegal, set_error-IsLegal, IsLegalPhone-mono,
}

module _ {s : System} (v : IsValid s) where
  -- A section on one phone keeps the invariant if it keeps the messages of that phone legal.
  on_phone-IsValid :
      (i : ℕ) (f : Phone → Phone)
      → ((p : Phone) → IsLegalPhone s p → IsLegalPhone s (f p))
      → IsValid (record s { dash = on_phone i f s.dash })
  unfolding on_phone
  on_phone-IsValid i f keep = record {
    events = v.events;
    phones = All-modify (IsLegalPhone s) s.dash.phones i f keep v.phones;
  }

  event-IsValid :
      (now : ℕ) (id text : String) → IsValid (record s { dash = event now id text s.dash })
  unfolding event
  event-IsValid now id text = record {
    events =
        length-keep_last 100 (s.dash.events ++ record { at = now; phone = id; text = text } ∷ []);
    phones = v.phones;
  }

  attach-IsValid :
      (p : Phone)
      → p.messages ≡ []
      → IsValid (record s { dash = record s.dash { phones = s.dash.phones ++ p ∷ [] } })
  attach-IsValid p empty = record {
    events = v.events;
    phones =
        All-append (IsLegalPhone s) s.dash.phones (p ∷ []) v.phones
          (rw empty (omega arith, tt), tt);
  }

pub Step-IsValid : {s t : System} → Step s t → length t.tickets < 2 ^ 64 → IsValid s → IsValid t
Step-IsValid (log now id text) few v = event-IsValid v now id text
Step-IsValid (problem err) few v =
    unfold set_problem in record { events = v.events; phones = v.phones }
Step-IsValid (attach p empty) few v = attach-IsValid v p empty
Step-IsValid start few v = record { events = v.events; phones = v.phones }
Step-IsValid {s = s} (take_id t) few v = record {
  events = v.events;
  phones = All-imp (λ p h. IsLegalPhone-mono {s = s} p (take_id t) h) s.dash.phones v.phones;
}
Step-IsValid {s = s} (store i m new) few v =
    on_phone-IsValid v i _ (λ p h. add_message-IsLegal s m p new h)
Step-IsValid {s = s} (confirm i from text to) few v =
    on_phone-IsValid v i _ (λ p h. confirm_sender-IsLegal s from text to p h)
Step-IsValid {s = s} (verdict i id status w k) few v =
    on_phone-IsValid v i _ (λ p h. settle-IsLegal s id status p w few k h)
Step-IsValid {s = s} (track i id k) few v =
    on_phone-IsValid v i _ (λ p h. track_on-IsLegal s id p few k h)
Step-IsValid (call i c is_incoming peer) few v =
    unfold start_call in on_phone-IsValid v i _ (λ p h. h)
Step-IsValid {s = s} (finish i err) few v =
    on_phone-IsValid v i _ (λ p h. set_error-IsLegal s err p h)
Step-IsValid (packets i tx rx_base rx) few v = on_phone-IsValid v i _ (λ p h. h)

-- In every state that the goroutines of the dashboard can reach, whatever their interleaving, as
-- long as fewer than 2 ^ 64 ids were taken, at most 100 events are kept, each phone keeps at most
-- 100 messages, and each message is either a received one or a sent one in one of its four states,
-- with an id that was taken for a message of its kind, if that holds of the state at the start.
pub Reach-IsValid : {s t : System} → IsValid s → Reach s t → length t.tickets < 2 ^ 64 → IsValid t
Reach-IsValid v here few = v
Reach-IsValid v (next r st) few =
    Step-IsValid st few (Reach-IsValid v r (omega (arith, Step-le st)))
