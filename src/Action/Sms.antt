-- ===== src/Action/Sms.antt =====
-- Sending a short message: what is refused, and what is stored and answered otherwise.
use Prim.Native.String.{count}
use telco_helm_charts.Common.{
  get_last?, get_last?-append, keep_last-append, ℕ, ◌≤◌, ◌<◌, String, Option, none, some, map, ◌≡◌,
  ◌≢◌, refl, ◌⊎◌, get_elem?, modify, get_elem?-modify_self, arith, ◌∙◌, ap,
}
use telco_helm_charts.Mode.{Environment}
use telco_helm_charts.Dashboard.State.{Phone, Dashboard, next_id, add_message, on_phone}
use telco_helm_charts.Dashboard.Number.{IsInternational, valid_phone_number_iff}
use telco_helm_charts.Dashboard.Messages.{settle, settle_message}
use telco_helm_charts.Dashboard.Messages.Delivery.{settle_message_now, submitting-ne-delivered}
use mathlib.Core.List.{map-append}
use telco_helm_charts.Exec.{Env, State, pure, ◌>>=◌, ask, spawn, locked, update}
use telco_helm_charts.Action.{
  Action, submit_error, verdict_of, submitting, follow, submit_as, send_sms, sms,
}

module _ {World : Type 0} (env : Env World) (getenv : Environment) (i : ℕ) (req : Action) where
  -- A message with no text, with more than 70 characters or to no international number is refused
  -- with an error, and nothing else happens.
  pub sms-refused :
      (s : State World)
      → (count req.text ≡ 0) ⊎ (70 < count req.text) ⊎ (¬ (IsInternational req.to))
      → ((sms env getenv i req s).0 ≢ none) × ((sms env getenv i req s).1 ≡ s)
  unfolding sms pure
  sms-refused s h = ground (arith, valid_phone_number_iff req.to, h)

  -- No other goroutine interferes.
  pub record IsQuiet : Type 0 where
    pub alone : (d : Dashboard) (w : World) → env.others d w ≡ (d, w)

  follow-dash :
      (id : ℕ) (err : Option String) (s : State World)
      → (follow env getenv i id req err s).1.dash ≡ s.dash
  unfolding follow pure spawn
  follow-dash id none s = ground arith
  follow-dash id (some e) s = refl

  module _ (quiet : IsQuiet) where
    submit_as-dash :
        (id : ℕ) (s : State World)
        → (submit_as env getenv i req id s).1.dash
          ≡ on_phone i
              (settle id
                (verdict_of (submit_error (env.submit i "+15550000000" req.to req.text s.world).0)))
              (on_phone i (add_message (submitting env getenv id req s.world)) s.dash)
    unfolding submit_as update locked ask pure ◌>>=◌
    submit_as-dash id s = simp (quiet.alone, follow-dash)

    submit_as-error :
        (id : ℕ) (s : State World)
        → (submit_as env getenv i req id s).0
          ≡ submit_error (env.submit i "+15550000000" req.to req.text s.world).0
    unfolding submit_as update locked ask pure ◌>>=◌
    submit_as-error id s = simp quiet.alone

    -- The phone after its message was stored and settled.
    stored : ℕ → String → World → Phone → Phone
    stored id status w p = settle id status (add_message (submitting env getenv id req w) p)

    last-settled :
        (id : ℕ) (status : String) (w : World) (p : Phone)
        → get_last? (stored id status w p).messages
          ≡ some (record (submitting env getenv id req w) { status = status })
    unfolding stored settle add_message
    last-settled id status w p =
        let m = submitting env getenv id req w in
        let (rest, e) = keep_last-append 99 p.messages m in
        rw (e, map-append)
          (get_last?-append (map (settle_message id status) rest) (settle_message id status m)
            ∙ ap some (settle_message_now id status m refl submitting-ne-delivered))

    -- The state in which the message is submitted: its id is taken.
    taken : State World → State World
    taken s = record s { dash = record s.dash { next = next_id s.dash.next } }

    send_sms-eq :
        (s : State World)
        → send_sms env getenv i req s ≡ submit_as env getenv i req (next_id s.dash.next) (taken s)
    unfolding send_sms taken locked ◌>>=◌
    send_sms-eq s = simp quiet.alone

    sms-eq :
        (s : State World)
        → 0 < count req.text
        → count req.text ≤ 70
        → IsInternational req.to
        → sms env getenv i req s ≡ submit_as env getenv i req (next_id s.dash.next) (taken s)
    unfolding sms
    sms-eq s few many number = rw (← send_sms-eq s) (ground (arith, valid_phone_number_iff req.to))

    -- A phone that is there sends a text of 1 to 70 characters to an international number,
    -- and no other goroutine interferes. Then the newest message of the phone is the one that
    -- was sent, under the next id of the counter; it is marked as accepted or failed as the
    -- handler's error says; the error is that of the submission; and the counter is one
    -- further.
    pub sms-stored :
        (s : State World) {p : Phone}
        → get_elem? s.dash.phones i ≡ some p
        → 0 < count req.text
        → count req.text ≤ 70
        → IsInternational req.to
        → (q : Phone) × (get_elem? (sms env getenv i req s).1.dash.phones i ≡ some q)
          × (get_last? q.messages
              ≡ some (record (submitting env getenv (next_id s.dash.next) req s.world) {
                status = verdict_of (sms env getenv i req s).0;
              }))
          × ((sms env getenv i req s).0
              ≡ submit_error (env.submit i "+15550000000" req.to req.text s.world).0)
          × ((sms env getenv i req s).1.dash.next ≡ next_id s.dash.next)
    unfolding taken on_phone stored
    sms-stored s {p} h few many number =
        let id = next_id s.dash.next in
        let report = env.submit i "+15550000000" req.to req.text s.world in
        let status = verdict_of (submit_error report.0) in
        rw (sms-eq s few many number, submit_as-dash id (taken s), submit_as-error id (taken s))
          (
            stored id status s.world p,
            get_elem?-modify_self (modify s.dash.phones i _) i _
                (get_elem?-modify_self s.dash.phones i _ h),
            last-settled id status s.world p,
            refl,
            refl,
          )
