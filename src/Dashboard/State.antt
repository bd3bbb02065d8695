-- ===== src/Dashboard/State.antt =====
-- ella-core/ue-phones/app/server.go: the state that the dashboard keeps for its phones.
-- A `*dashboardPhone` is the index of the phone in `phones`, which only grows. A `*testue.Call` is
-- the number that stands for the pointer. A time is a number. The fields that the source only
-- hands to the tester's libraries (endpoint, access, session) are the texts that are read from them.
use telco_helm_charts.Common.{
  ℕ, ℤ, pos, ◌+◌, ◌%◌, ◌^◌, String, Bool, Option, some, List, [], ◌∷◌, ◌++◌, keep_last, modify,
}

pub record Message : Type 0 where
  pub id : ℕ
  pub direction : String
  pub peer : String
  pub text : String
  pub status : String
  pub at : ℕ

pub record Event : Type 0 where
  pub at : ℕ
  pub phone : String
  pub text : String

pub record Phone : Type 0 where
  pub id : String
  pub name : String
  pub imsi : String
  pub msisdn : String
  pub call : Option ℕ
  pub peer : String
  pub incoming : Bool
  pub messages : List Message
  pub tx : ℕ
  pub rx_base : ℕ
  pub rx : ℤ
  pub error_text : String
  pub internet_ip : String

pub record Dashboard : Type 0 where
  pub phones : List Phone
  pub events : List Event
  pub ready : Bool
  pub problem : String
  pub next : ℕ

-- `event`: the newest 100 events are kept.
unfoldable pub event : ℕ → String → String → Dashboard → Dashboard
unfolding keep_last
event now id text d = record d {
  events = keep_last 100 (d.events ++ record { at = now; phone = id; text = text } ∷ []);
}

-- `fail`: two locked sections, in this order.
unfoldable pub set_problem : String → Dashboard → Dashboard
set_problem err d = record d { problem = err }

unfoldable pub fail : ℕ → String → Dashboard → Dashboard
unfolding event set_problem
fail now err d = event now "network" err (set_problem err d)

unfoldable pub trim : Phone → Phone
unfolding keep_last
trim p = record p { messages = keep_last 100 p.messages }

-- `p.messages = append(p.messages, m); p.trim()`
unfoldable pub add_message : Message → Phone → Phone
unfolding trim
add_message m p = trim (record p { messages = p.messages ++ m ∷ [] })

-- `d.next.Add(1)`: the new value of an `atomic.Uint64`.
unfoldable pub next_id : ℕ → ℕ
next_id n = (n + 1) % 2 ^ 64

-- A section under the lock of the phone at index `i`.
unfoldable pub on_phone : ℕ → (Phone → Phone) → Dashboard → Dashboard
on_phone i f d = record d { phones = modify d.phones i f }

-- What a new call sets; `receiveCalls` and the call action write the same fields.
unfoldable pub start_call : ℕ → Bool → String → Phone → Phone
start_call call incoming peer p = record p {
  call = some call;
  incoming = incoming;
  peer = peer;
  tx = 0;
  rx_base = 0;
  rx = pos 0;
}
