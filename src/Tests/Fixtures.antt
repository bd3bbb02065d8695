-- ===== src/Tests/Fixtures.antt =====
-- A dashboard with two phones, and an environment in which every call succeeds.
use telco_helm_charts.Common.{pos, ℕ, String, false, true, none, some, [], ◌∷◌}
use telco_helm_charts.Dashboard.State.{Message, Phone, Dashboard}
use telco_helm_charts.Exec.{confirmed, invited, Env, State}
use telco_helm_charts.Exec.Runs.{Interleaves, Leads-here}
use telco_helm_charts.Action.{Action}

abbrev pub phone : String → String → Phone
phone id msisdn = record {
  id = id;
  name = "UE";
  imsi = "001010000000001";
  msisdn = msisdn;
  call = none;
  peer = "";
  incoming = false;
  messages = [];
  tx = 0;
  rx_base = 0;
  rx = pos 0;
  error_text = "";
  internet_ip = "";
}

abbrev pub two_phones : Dashboard
two_phones = record {
  phones = phone "1" "+15551110001" ∷ phone "2" "+15551110002" ∷ [];
  events = [];
  ready = true;
  problem = "";
  next = 0;
}

abbrev pub message : ℕ → String → Message
message id status = record {
  id = id;
  direction = "sent";
  peer = "+15551110002";
  text = "hi";
  status = status;
  at = 3;
}

-- The world is the time.
abbrev pub calm_env : Env ℕ
calm_env = record {
  others = λ d w. (d, w);
  pass = λ w. w;
  now = λ w. w;
  call_state = λ w c. confirmed;
  call_incoming = λ w c. false;
  register = λ i w. (none, w);
  deregister = λ i w. (none, w);
  submit = λ i smsc to text w. (record { rp_error = none; error = none }, w);
  invite = λ i to w. (invited 7, w);
  answer = λ c w. (none, w);
  bye = λ c w. (none, w);
  cancel = λ c w. (none, w);
  reject = λ c code w. (none, w);
  ring = λ c w. (none, w);
  fetch_state = λ w. (some (record { number = "+15551110002"; messages = [] } ∷ []), w);
}

pub calm_env-Interleaves : Interleaves calm_env
calm_env-Interleaves = record { others = λ k d w. Leads-here k d }

abbrev pub start_state : State ℕ
start_state = record { dash = two_phones; world = 5; spawned = [] }

abbrev pub sms_to : String → Action
sms_to to = record { phone = "1"; action = "sms"; to = to; text = "hi" }

abbrev pub full_mode : String → String
full_mode name = ""

abbrev pub internet_mode : String → String
internet_mode name = "internet"
