-- ===== src/Tests/Handlers.antt =====
-- The handlers on concrete requests.
use telco_helm_charts.Common.{
  ℕ, String, Option, none, some, [], ◌∷◌, ◌≡◌, ◌≢◌, ◌⊎◌, inr, refl, arith, get_elem?, get_last?,
  true, nat_eq, if◌then◌else◌,
}
use telco_helm_charts.Dashboard.State.{Phone, next_id, on_phone}
use telco_helm_charts.Exec.{Env, State}
use telco_helm_charts.Dashboard.Messages.{find_message, track_on}
use telco_helm_charts.Receive.{is_delivered}
use telco_helm_charts.Receive.Tracking.{at_once, again, track_delivery-track_on}
use telco_helm_charts.Action.{Request, submitting, verdict_of, submit_error, sms, action}
use telco_helm_charts.Action.Refusals.{action-internet_mode, IsRefusal, after_others}
use telco_helm_charts.Action.Sms.{sms-refused, sms-stored}
use telco_helm_charts.Mode.{services_enabled}
use telco_helm_charts.Receive.{track_delivery}
use telco_helm_charts.Tests.Fixtures.{
  phone, message, two_phones, calm_env, start_state, sms_to, full_mode, internet_mode,
}

abbrev parse_host : String → Option String
parse_host origin = some "ue.local"

abbrev request : String → Request
request host = record {
  origin = "http://ue.local";
  host = host;
  body = some (sms_to "+15551110002");
}

action-internet_mode_example :
    IsRefusal calm_env internet_mode parse_host
      (request "ue.local")
      start_state
      (action calm_env internet_mode parse_host (request "ue.local") start_state).0.status
    × (((action calm_env internet_mode parse_host (request "ue.local") start_state).1 ≡ start_state)
        ⊎ ((action calm_env internet_mode parse_host (request "ue.local") start_state).1
            ≡ after_others calm_env internet_mode parse_host (request "ue.local") start_state))
action-internet_mode_example =
    action-internet_mode calm_env internet_mode parse_host (request "ue.local") start_state
      (unfold services_enabled in refl)

sms-refused_example :
    ((sms calm_env full_mode 0 (sms_to "5551110002") start_state).0 ≢ none)
    × ((sms calm_env full_mode 0 (sms_to "5551110002") start_state).1 ≡ start_state)
sms-refused_example =
    sms-refused calm_env full_mode 0 (sms_to "5551110002") start_state (inr (inr (ground arith)))

sms-stored_example :
    (q : Phone) × (get_elem?
        (sms calm_env full_mode 0 (sms_to "+15551110002") start_state).1.dash.phones
        0
      ≡ some q)
    × (get_last? q.messages
        ≡ some (record (submitting calm_env full_mode (next_id 0) (sms_to "+15551110002") 5) {
          status = verdict_of (sms calm_env full_mode 0 (sms_to "+15551110002") start_state).0;
        }))
    × ((sms calm_env full_mode 0 (sms_to "+15551110002") start_state).0
        ≡ submit_error (record { rp_error = none; error = none }))
    × ((sms calm_env full_mode 0 (sms_to "+15551110002") start_state).1.dash.next ≡ next_id 0)
sms-stored_example =
    sms-stored calm_env full_mode 0 (sms_to "+15551110002") (record { alone = λ d w. refl })
      start_state refl (ground arith) (ground arith) (ground arith)

-- The peer fails to answer at time 5 and shows the message from then on.
abbrev tracking_env : Env ℕ
tracking_env = record calm_env {
  fetch_state = λ w. if nat_eq w 5 then (none, 6) else (
    some (
        record {
          number = "+15551110002";
          messages =
              record (message 9 "received") { direction = "received"; peer = "+15551110001" } ∷ [];
        }
        ∷ []),
    w,
  );
}

abbrev tracked_state : State ℕ
tracked_state = record start_state {
  dash = record two_phones {
    phones =
        record (phone "1" "+15551110001") { messages = message 1 "accepted by SMSC" ∷ [] } ∷ [];
  };
}

shown :
    is_delivered "+15551110001" "hi" "+15551110002" (message 1 "accepted by SMSC") (
      record {
        number = "+15551110002";
        messages =
            record (message 9 "received") { direction = "received"; peer = "+15551110001" } ∷ [];
      }
      ∷ [])
    ≡ true
unfolding is_delivered
shown = refl

stored : find_message 1 (message 1 "accepted by SMSC" ∷ []) ≡ some (message 1 "accepted by SMSC")
unfolding find_message
stored = refl

track_delivery-track_on_example :
    (track_delivery tracking_env 30 0 1 "hi" "+15551110002" tracked_state).1.dash
    ≡ on_phone 0 (track_on 1) tracked_state.dash
track_delivery-track_on_example =
    track_delivery-track_on tracking_env 0 1 "hi" "+15551110002" (λ d w. refl) 30 1
      tracked_state.dash 5 [] (omega arith) (again refl at_once) refl stored shown
