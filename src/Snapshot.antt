-- ===== src/Snapshot.antt =====
-- `state` of server.go: what GET /api/state tells of the dashboard, before it is encoded.
pub mod Interleaving
pub mod Told
pub mod Delivery
use telco_helm_charts.Common.{
  ℕ, zero, suc, ℤ, String, Bool, true, false, Option, none, some, List, [], ◌∷◌, ◌++◌, get_elem?,
  length, if◌then◌else◌,
}
use telco_helm_charts.Mode.{Environment, phone_mode, services_enabled}
use telco_helm_charts.Dashboard.State.{Message, Event, Phone, Dashboard}
use telco_helm_charts.Exec.{
  CallState, terminated, confirmed, under_way, Env, Exec, pure, ◌>>=◌, observe, locked,
}

pub record PhoneInfo : Type 0 where
  pub id : String
  pub name : String
  pub imsi : String
  pub number : String
  pub ip : String
  pub internet_ip : String
  pub nas : Bool
  pub registered : Bool
  pub call : String
  pub ended : String
  pub incoming : Bool
  pub peer : String
  pub messages : List Message
  pub tx : ℕ
  pub rx : ℤ
  pub qfi : List ℕ
  pub error : String

pub record Info : Type 0 where
  pub mode : String
  pub ready : Bool
  pub problem : String
  pub phones : List PhoneInfo
  pub events : List Event
  pub time : ℕ

-- An IMS client: whether it is registered, and its address.
pub record Ims : Type 0 where
  pub registered : Bool
  pub address : String

-- What the tester's libraries tell of a phone: the texts of a call's state and of its end, the flows
-- of the radio, the IMS client if there is one, and whether NAS SMS is allowed.
pub record Reading (World : Type 0) : Type 0 where
  pub state_text : World → (call : ℕ) → String
  pub end_text : World → (call : ℕ) → String
  pub flows : World → (phone : ℕ) → List ℕ
  pub ims : World → (phone : ℕ) → Option Ims
  pub sms_allowed : World → (phone : ℕ) → Bool

module _ {World : Type 0} (env : Env World) (reading : Reading World) (getenv : Environment) where
  abbrev pub call_text : Option ℕ → World → String
  call_text none w = "idle"
  call_text (some c) w = reading.state_text w c

  abbrev pub is_terminated : CallState → Bool
  is_terminated terminated = true
  is_terminated confirmed = false
  is_terminated under_way = false

  abbrev pub ended_text : Option ℕ → World → String
  ended_text none w = ""
  ended_text (some c) w = if is_terminated (env.call_state w c) then reading.end_text w c else ""

  abbrev pub registered_of : Option Ims → Bool
  registered_of none = false
  registered_of (some m) = m.registered

  abbrev pub address_of : Option Ims → String
  address_of none = ""
  address_of (some m) = m.address

  -- The section of a phone.
  unfoldable pub info_of : ℕ → World → Phone → PhoneInfo
  unfolding services_enabled
  info_of i w p = record {
    id = p.id;
    name = p.name;
    imsi = p.imsi;
    number = p.msisdn;
    ip = address_of (reading.ims w i);
    internet_ip = p.internet_ip;
    nas = reading.sms_allowed w i;
    registered = registered_of (reading.ims w i);
    call = call_text p.call w;
    ended = ended_text p.call w;
    incoming = p.incoming;
    peer = p.peer;
    messages = p.messages;
    tx = p.tx;
    rx = p.rx;
    qfi = if services_enabled getenv then reading.flows w i else [];
    error = p.error_text;
  }

  abbrev pub info_at : ℕ → World → Dashboard → List PhoneInfo
  info_at i w d = elim (get_elem? d.phones i) [ none ↦ [] | some p ↦ info_of i w p ∷ [] ]

  -- The loop over the phones that were there: `n` of them from index `i` on.
  unfoldable pub infos : (i n : ℕ) → Exec World (List PhoneInfo)
  unfolding info_of
  infos i zero = pure []
  infos i (suc n) = do
    here ← locked env (λ w d. (info_at i w d, d))
    rest ← infos (suc i) n
    pure (here ++ rest)

  unfoldable pub state : Exec World Info
  unfolding infos phone_mode
  state = do
    d ← locked env (λ w d. (d, d))
    phones ← infos 0 (length d.phones)
    now ← observe env env.now
    pure (record {
      mode = phone_mode getenv;
      ready = d.ready;
      problem = d.problem;
      phones = phones;
      events = d.events;
      time = now;
    })
