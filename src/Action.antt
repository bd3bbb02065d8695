-- ===== src/Action.antt =====
-- `action` of server.go: POST /api/action.
pub mod Interleaving
pub mod Refusals
pub mod Selection
pub mod Sms
use Prim.Native.String.{count}
use telco_helm_charts.Common.{
  ℕ, zero, suc, String, Bool, true, false, not, ◌&&◌, ◌||◌, Option, none, some, List, [], ◌∷◌, ltb,
  nat_eq, if◌then◌else◌, ◌==◌, ◌<>◌, get_elem?,
}
use telco_helm_charts.Mode.{Environment, services_enabled}
use telco_helm_charts.Dashboard.State.{
  Message, Phone, Dashboard, event, next_id, add_message, on_phone, start_call,
}
use telco_helm_charts.Dashboard.Number.{valid_phone_number}
use telco_helm_charts.Dashboard.Messages.{settle, set_error}
use telco_helm_charts.Exec.{
  CallState, terminated, confirmed, under_way, Submitted, Invited, invited, refused, media,
  track_delivery, Env, Exec, pure, ◌>>=◌, ◌>>◌, observe, ask, spawn, locked, update,
}

pub record Action : Type 0 where
  pub phone : String
  pub action : String
  pub to : String
  pub text : String

-- The HTTP request. `origin` and `host` are r.Header.Get("Origin") and r.Host; `body` is the
-- decoded JSON, or none if the decoder refused it.
pub record Request : Type 0 where
  pub origin : String
  pub host : String
  pub body : Option Action

-- `http.Error(w, text, code)`, a JSON object with "error", or {"ok": true}.
pub data Body : Type 0 where
  plain : String → Body
  error : String → Body
  success : Body

pub record Response : Type 0 where
  pub status : ℕ
  pub body : Body

abbrev pub respond : ℕ → Body → Response
respond status body = record { status = status; body = body }

-- The guard on the Origin header. `parse_host` is `url.Parse` and the `Host` of its result.
unfoldable pub same_origin : (String → Option String) → String → String → Bool
same_origin parse_host origin host =
    if origin == "" then true else elim (parse_host origin) [ none ↦ false | some h ↦ h == host ]

-- The loop over `d.phones` has no break: the last phone with the id is chosen.
unfoldable pub find_phone : String → ℕ → List Phone → Option ℕ → Option ℕ
find_phone id i [] found = found
find_phone id i (p ∷ ps) found = find_phone id (suc i) ps (if p.id == id then some i else found)

-- The phone that the request names, if the dashboard is ready.
unfoldable pub select : String → Dashboard → Option ℕ
select id d = if d.ready then find_phone id 0 d.phones none else none

-- `p.call`, of a phone that is there.
abbrev pub call_of : ℕ → Dashboard → Option ℕ
call_of i d = elim (get_elem? d.phones i) [ none ↦ none | some p ↦ p.call ]

abbrev pub id_of : ℕ → Dashboard → String
id_of i d = elim (get_elem? d.phones i) [ none ↦ "" | some p ↦ p.id ]

-- What the switch leaves in `err`, or its default case, which returns.
pub data Performed : Type 0 where
  unknown : Performed
  done : Option String → Performed

-- The error of a submission: a report of an RP error replaces it.
unfoldable pub submit_error : Submitted → Option String
submit_error r = elim r.rp_error [ none ↦ r.error | some cause ↦ some ("SMS rejected: " <> cause) ]

unfoldable pub verdict_of : Option String → String
verdict_of none = "accepted by SMSC"
verdict_of (some err) = "failed"

module _ {World : Type 0} (env : Env World) (getenv : Environment) where
  -- `call != nil && call.State() != testue.CallTerminated`
  unfoldable pub is_active : Option ℕ → World → Bool
  is_active none w = false
  is_active (some c) w = elim (env.call_state w c) [
    | terminated ↦ false
    | confirmed ↦ true
    | under_way ↦ true
  ]

  -- The message that is stored before it is submitted.
  abbrev pub submitting : ℕ → Action → World → Message
  submitting id req w = record {
    id = id;
    direction = "sent";
    peer = req.to;
    text = req.text;
    status = "submitting";
    at = env.now w;
  }

  -- `go d.trackDelivery` after a submission with no error, if there is a peer.
  unfoldable pub follow : ℕ → ℕ → Action → Option String → Exec World (Unit {0})
  follow i id req (some err) = pure tt
  follow i id req none =
      if getenv "PEER_URL" == "" then pure tt else spawn (track_delivery i id req.text req.to)

  -- What comes after the id was taken.
  unfoldable pub submit_as : ℕ → Action → ℕ → Exec World (Option String)
  submit_as i req id = do
    update env (λ w. on_phone i (add_message (submitting id req w)))
    report ← ask (env.submit i "+15550000000" req.to req.text)
    update env (λ w. on_phone i (settle id (verdict_of (submit_error report))))
    follow i id req (submit_error report)
    pure (submit_error report)

  unfoldable pub send_sms : ℕ → Action → Exec World (Option String)
  send_sms i req = do
    id ← locked env (λ w d. (next_id d.next, record d { next = next_id d.next }))
    submit_as i req id

  unfoldable pub sms : ℕ → Action → Exec World (Option String)
  sms i req =
      if nat_eq (count req.text) 0 || ltb 70 (count req.text)
      then pure (some "enter 1–70 characters")
      else if not (valid_phone_number req.to)
      then pure (some "recipient must be an international number")
      else send_sms i req

  unfoldable pub unregister : ℕ → Option ℕ → Exec World (Option String)
  unregister i call = do
    active ← observe env (is_active call)
    if active then pure (some "hang up before unregistering") else ask (env.deregister i)

  place_call : ℕ → String → Invited → Exec World (Option String)
  place_call i to (refused err) = pure (some err)
  place_call i to (invited c) = do
    update env (λ w. on_phone i (start_call c false to))
    spawn (media i c)
    pure none

  unfoldable pub dial : ℕ → Option ℕ → Action → Exec World (Option String)
  unfolding place_call
  dial i call req = do
    active ← observe env (is_active call)
    if active
        then pure (some "a call is already active")
        else if not (valid_phone_number req.to)
        then pure (some "recipient must be an international number")
        else do c ← ask (env.invite i ("tel:" <> req.to)); place_call i req.to c

  unfoldable pub answer_call : Option ℕ → Exec World (Option String)
  answer_call none = pure (some "no incoming call")
  answer_call (some c) = do
    coming ← observe env (λ w. env.call_incoming w c)
    if coming then ask (env.answer c) else pure (some "no incoming call")

  end_call : ℕ → CallState → Exec World (Option String)
  end_call c confirmed = ask (env.bye c)
  end_call c _ = do
    coming ← observe env (λ w. env.call_incoming w c)
    if coming then ask (env.reject c 486) else ask (env.cancel c)

  unfoldable pub hang_up : Option ℕ → Exec World (Option String)
  unfolding end_call
  hang_up none = pure (some "no active call")
  hang_up (some c) = do
    active ← observe env (is_active (some c))
    if active
        then (do state ← observe env (λ w. env.call_state w c); end_call c state)
        else pure (some "no active call")

  finished : Exec World (Option String) → Exec World Performed
  finished m = do err ← m; pure (done err)

  -- The switch on `req.Action`.
  unfoldable pub perform : ℕ → Option ℕ → Action → Exec World Performed
  unfolding finished
  perform i call req =
      if req.action == "register"
      then finished (ask (env.register i))
      else if req.action == "unregister"
      then finished (unregister i call)
      else if req.action == "sms"
      then finished (sms i req)
      else if req.action == "call"
      then finished (dial i call req)
      else if req.action == "answer"
      then finished (answer_call call)
      else if req.action == "hangup"
      then finished (hang_up call)
      else pure unknown

  -- After the switch: the error text, an event and the answer.
  unfoldable pub conclude : ℕ → String → Performed → Exec World Response
  conclude i name unknown = pure (respond 400 (plain "unknown action"))
  conclude i name (done none) = do
    update env (λ w. on_phone i (set_error none))
    update env (λ w d. event (env.now w) (id_of i d) (name <> " succeeded") d)
    pure (respond 200 success)
  conclude i name (done (some err)) = do
    update env (λ w. on_phone i (set_error (some err)))
    update env (λ w d. event (env.now w) (id_of i d) (name <> ": " <> err) d)
    pure (respond 409 (error err))

  -- From `p.op.Lock()` on.
  unfoldable pub operate : ℕ → Action → Exec World Response
  operate i req = do
    call ← locked env (λ w d. (call_of i d, d))
    result ← perform i call req
    conclude i req.action result

  admit : Action → Option ℕ → Exec World Response
  admit req none = pure (respond 409 (plain "UE not ready"))
  admit req (some i) =
      if services_enabled getenv
      then operate i req
      else pure (respond 403 (error "IMS and SMS are disabled in internet mode"))

  admitted : Option Action → Exec World Response
  unfolding admit
  admitted none = pure (respond 400 (plain "invalid request"))
  admitted (some req) = do found ← locked env (λ w d. (select req.phone d, d)); admit req found

  unfoldable pub action : (parse_host : String → Option String) → Request → Exec World Response
  unfolding admitted
  action parse_host r =
      if same_origin parse_host r.origin r.host
      then admitted r.body
      else pure (respond 403 (plain "same-origin requests only"))
