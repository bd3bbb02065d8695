-- ===== src/Browser/Navigation.antt =====
-- `browserRoutes`, POST /api/browser/navigate: Chromium is told by its debugger to visit a URL.
-- Chromium is a parameter: its list of tabs, whether a tab can be dialled and a command can be sent,
-- and the messages that it sends until the connection breaks. Deadlines are not modelled.
pub mod Courses
pub mod Arrival
use telco_helm_charts.Common.{
  ℕ, String, Bool, true, false, not, ◌&&◌, Option, none, some, List, [], ◌∷◌, ◌++◌, nat_eq,
  if◌then◌else◌, ◌==◌,
}
use telco_helm_charts.Mode.{Environment}
use telco_helm_charts.Action.{same_origin}
use telco_helm_charts.Browse.Client.{Url, Checked, rejected, allowed, public_web_url}

-- `body` is the URL of the decoded JSON, or none if the decoder refused it.
pub record Request : Type 0 where
  pub origin : String
  pub host : String
  pub body : Option String

-- The four commands, in the order in which they are sent; the last one names the URL.
pub data Command : Type 0 where
  set_metrics enable_touch set_user_agent : Command
  go_to : String → Command

abbrev pub command_id : Command → ℕ
command_id set_metrics = 1
command_id enable_touch = 2
command_id set_user_agent = 3
command_id (go_to url) = 4

abbrev pub commands : String → List Command
commands url = set_metrics ∷ enable_touch ∷ set_user_agent ∷ go_to url ∷ []

-- A message of Chromium: "id", if it is a number of the kind that the code compares with, and
-- "error", if it is there, as `fmt.Sprint` prints it.
pub record Message : Type 0 where
  pub id : Option ℕ
  pub error : Option String

pub record Tab : Type 0 where
  pub kind : String
  pub socket_url : String

-- `tabs` is none if the list cannot be fetched; a list that cannot be decoded is empty or partial.
-- An error is its text, and `broken` is that of a receive when no message is left.
pub record Chromium : Type 0 where
  pub tabs : Option (List Tab)
  pub dial_error : String → Option String
  pub send_error : Command → Option String
  pub messages : List Message
  pub broken : String

pub data Effect : Type 0 where
  list_tabs : Effect
  dial : String → Effect
  send : Command → Effect
  close : Effect

pub record Outcome : Type 0 where
  pub effects : List Effect
  pub status : ℕ
  pub text : String

abbrev pub refuse : ℕ → String → Outcome
refuse status text = record { effects = []; status = status; text = text }

abbrev pub after : Effect → Outcome → Outcome
after e o = record o { effects = e ∷ o.effects }

abbrev pub answers : Message → ℕ → Bool
answers m id = elim m.id [ none ↦ false | some j ↦ nat_eq j id ]

-- The inner loop: the messages after the answer to a command, or an error.
pub data Awaited : Type 0 where
  answered : List Message → Awaited
  stopped : String → Awaited

unfoldable pub await : (broken : String) → ℕ → List Message → Awaited
await broken id [] = stopped broken
await broken id (m ∷ ms) =
    let more = await broken id ms in
    if answers m id then (elim m.error [ none ↦ answered ms | some err ↦ stopped err ]) else more

-- What was sent, and the error that ended the loop over the commands.
pub record Driven : Type 0 where
  pub sent : List Command
  pub error : Option String

abbrev pub then_sent : Command → Driven → Driven
then_sent c d = record { sent = c ∷ d.sent; error = d.error }

-- One round, on the error of the send and on what was awaited; `later` is the loop from there on.
abbrev pub drive_on : Command → (List Message → Driven) → Option String → Awaited → Driven
drive_on c later (some err) a = record { sent = []; error = some err }
drive_on c later none (stopped err) = record { sent = c ∷ []; error = some err }
drive_on c later none (answered rest) = then_sent c (later rest)

module _ (chromium : Chromium) where
  unfoldable pub drive : List Command → List Message → Driven
  drive [] input = record { sent = []; error = none }
  drive (c ∷ cs) input =
      drive_on c (λ rest. drive cs rest) (chromium.send_error c)
        (await chromium.broken (command_id c) input)

  abbrev pub sends : List Command → List Effect
  sends [] = close ∷ []
  sends (c ∷ cs) = send c ∷ sends cs

  -- The answer after the loop over the commands; `ws.Close` is deferred.
  unfoldable pub conclude : Driven → Outcome
  conclude d = elim d.error [
    | some err ↦ record { effects = sends d.sent; status = 502; text = err }
    | none ↦ record { effects = sends d.sent; status = 200; text = "{\"ok\":true}" }
  ]

  -- The loop over the tabs ends at the first page.
  unfoldable pub visit_tab : String → List Tab → Outcome
  unfolding conclude
  visit_tab url [] = refuse 503 "Chromium page is not ready"
  visit_tab url (t ∷ ts) =
      let more = visit_tab url ts in
      if not (t.kind == "page")
      then more
      else after (dial t.socket_url) (elim (chromium.dial_error t.socket_url) [
        | some err ↦ refuse 502 err
        | none ↦ conclude (drive (commands url) chromium.messages)
      ])

  unfoldable pub visit : String → Outcome
  visit url = after list_tabs (elim chromium.tabs [
    | none ↦ refuse 503 "Chromium is starting; try again"
    | some tabs ↦ visit_tab url tabs
  ])

  -- `parse` is `url.Parse`, `print` is `u.String()`.
  module _ (parse : String → Option Url) (print : Url → String) where
    unfoldable pub checked_visit : Option String → Outcome
    checked_visit none = refuse 400 "invalid request"
    checked_visit (some raw) = elim (public_web_url parse raw) [
      | rejected err ↦ refuse 400 err
      | allowed u ↦ visit (print u)
    ]

    unfoldable pub navigate :
        (getenv : Environment) (parse_host : String → Option String) → Request → Outcome
    unfolding checked_visit
    navigate getenv parse_host r =
        if not (getenv "BROWSER_ENABLED" == "true")
        then refuse 409 "browser disabled"
        else if same_origin parse_host r.origin r.host
        then checked_visit r.body
        else refuse 403 "same-origin requests only"
