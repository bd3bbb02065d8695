-- ===== src/Tests/Processes.antt =====
-- The process of the dashboard on concrete requests.
use telco_helm_charts.Common.{
  ℕ, String, Option, none, some, true, map, List, [], ◌∷◌, ◌≡◌, ◌⊎◌, refl, arith, eq_iff,
}
use telco_helm_charts.Action.{Action}
use telco_helm_charts.Dashboard.State.{Message, Dashboard, on_phone}
use telco_helm_charts.Dashboard.Messages.{find_message, track_on}
use telco_helm_charts.Receive.{receive_sms, track_section}
use telco_helm_charts.Snapshot.{Reading, state}
use telco_helm_charts.Snapshot.Told.{decode}
use telco_helm_charts.Snapshot.Delivery.{receive_sms-track_section}
use telco_helm_charts.Browse.Handler.{failed}
use telco_helm_charts.Serve.Routes.{Surroundings, Request, respond}
use telco_helm_charts.Serve.Routes.Origin.{
  MayChange, IsRefused, respond-keeps, respond-cross_origin,
}
use telco_helm_charts.Exec.View.{IsIdle}
use telco_helm_charts.Process.{Job, set_up, request, go, process}
use telco_helm_charts.Dashboard.Caps.{IsCapped}
use telco_helm_charts.Process.Safety.{process-IsCapped}
use telco_helm_charts.Tests.Fixtures.{phone, message, calm_env, sms_to, start_state, two_phones}
use telco_helm_charts.Tests.Startup.{getenv, number, letter, setup, voice}
use telco_helm_charts.Tests.Remote.{chromium}

abbrev reading : Reading ℕ
reading = record {
  state_text = λ w c. "confirmed";
  end_text = λ w c. "";
  flows = λ w i. [];
  ims = λ w i. none;
  sms_allowed = λ w i. true;
}

abbrev around : Surroundings ℕ
around = record {
  getenv = getenv;
  clean = λ path. path;
  number = number;
  letter = letter;
  setup = setup;
  voice = voice;
  reading = reading;
  next_sms = λ i w. (some (record { from = "+15558400003"; text = "hi" }), w);
  next_call = λ i w. (some 9, w);
  parse = λ raw. none;
  print = λ u. u.hostname;
  parse_html = λ body. none;
  resolve = λ page reference. none;
  escape = λ text. text;
  fetch = λ i ip url w. (failed "refused", w);
  parse_host = λ origin. none;
  view = λ h. h;
  chromium = chromium;
  quoted = λ text. text;
  apply = λ r page. page;
  template = "";
  enhancements = "";
}

abbrev to_server : (method path origin : String) → Option Action → Request
to_server method path origin body = record {
  method = method;
  path = path;
  origin = origin;
  host = "ue.local";
  header = [];
  action = body;
  visit = none;
  target = none;
}

-- A message to the second phone.
abbrev message_to_second : Request
message_to_second = to_server "POST" "/api/action" "" (some (sms_to "+15558400004"))

-- The phones are set up, the first one sends a message, and the second one receives it.
abbrev jobs : List Job
jobs = set_up ∷ request message_to_second ∷ go 2 1 ∷ []

-- Between the sections a page is asked for, and the state is told.
abbrev schedule : ℕ → List Job
schedule w =
    request (to_server "POST" "/api/browse" "" none)
    ∷ request (to_server "GET" "/api/state" "" none)
    ∷ []

process-IsCapped_example : IsCapped (process around schedule calm_env 1 jobs 0).dash
process-IsCapped_example = process-IsCapped around schedule calm_env 1 jobs 0

calm_env-IsIdle : IsIdle calm_env
calm_env-IsIdle = record { alone = λ d w. refl }

respond-keeps_example :
    (((respond calm_env around message_to_second start_state).1.dash ≡ two_phones)
      × ((respond calm_env around message_to_second start_state).1.spawned ≡ []))
    ⊎ MayChange around message_to_second
respond-keeps_example = respond-keeps calm_env around calm_env-IsIdle message_to_second start_state

abbrev forged : Request
forged = to_server "POST" "/api/action" "http://other.local" (some (sms_to "+15558400004"))

respond-cross_origin_example :
    IsRefused around forged (respond calm_env around forged start_state).0
    × ((respond calm_env around forged start_state).1 ≡ start_state)
respond-cross_origin_example =
    respond-cross_origin calm_env around forged start_state refl
      (ground (arith, eq_iff "http://other.local" "")) (λ h. cc)

-- A message that the second phone of the other process receives.
abbrev sent_first : Message
sent_first = record (message 1 "accepted by SMSC") { at = 0 }

abbrev sender : Dashboard
sender = record two_phones {
  phones = record (phone "1" "+15551110001") { messages = sent_first ∷ [] } ∷ [];
}

found_first : find_message 1 (sent_first ∷ []) ≡ some sent_first
unfolding find_message
found_first = refl

receive_sms-track_section_example :
    track_section calm_env 0 1 "hi" "+15551110002"
      (map decode
        (state calm_env reading getenv
          (receive_sms calm_env 1
            (record { from = "+15551110001"; text = "hi" })
            start_state).1).0.phones)
      sender
    ≡ (true, on_phone 0 (track_on 1) sender)
receive_sms-track_section_example =
    receive_sms-track_section calm_env calm_env-IsIdle reading getenv 1 0 1
      (phone "2" "+15551110002") (record { from = "+15551110001"; text = "hi" }) sender sent_first
      start_state found_first refl refl (λ w. omega arith)
