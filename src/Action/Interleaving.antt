-- ===== src/Action/Interleaving.antt =====
-- The action handler among the other goroutines: all that it does to the dashboard is a sequence of
-- atomic sections.
use telco_helm_charts.Common.{ℕ, String, false, Option, none, some, List, refl, inl, inr}
use telco_helm_charts.Mode.{Environment}
use telco_helm_charts.Dashboard.State.{on_phone}
use telco_helm_charts.Dashboard.Messages.{set_error}
use telco_helm_charts.Dashboard.Steps
use telco_helm_charts.Dashboard.Steps.{
  Ticket, outgoing, System, HasTicket, Reach, here, next, Reach-trans, IsVerdict, IsCounted,
}
use telco_helm_charts.Exec.{
  CallState, terminated, confirmed, under_way, Invited, invited, refused, Env, State, Exec, update,
}
use telco_helm_charts.Exec.Runs.{
  system, Interleaves, Runs, Runs-pure, Runs-spawn, Runs-ask, Runs-if, Runs-bind, Runs-read,
  Runs-update,
}
use telco_helm_charts.Exec.Take.{
  IsCounted-stable, Owns, Owns-stable, Runs-take, Runs-log, Runs-Reach, rules,
}
use telco_helm_charts.Action.{
  Action, Request, Performed, unknown, done, sms, verdict_of, unregister, dial, answer_call,
  hang_up, perform, conclude, operate, action, follow, submit_as, send_sms, submitting, finished,
  place_call, end_call, admitted, admit,
}

verdict_of-IsVerdict : (err : Option String) → IsVerdict (verdict_of err)
unfolding verdict_of
verdict_of-IsVerdict none = inl refl
verdict_of-IsVerdict (some e) = inr refl

module _ {World : Type 0} {env : Env World} (calm : Interleaves env) where
  module _ (getenv : Environment) where
    follow-Runs :
        (i id : ℕ) (req : Action) (err : Option String)
        → Runs (Owns outgoing id) (follow env getenv i id req err)
    unfolding follow
    follow-Runs i id req (some err) = Runs-pure tt
    follow-Runs i id req none = Runs-if _ _ _ (Runs-pure tt) (Runs-spawn _ (λ s h. h.1))

    submit_as-Runs :
        (i : ℕ) (req : Action) (id : ℕ) → Runs (Owns outgoing id) (submit_as env getenv i req id)
    unfolding submit_as
    submit_as-Runs i req id =
        Runs-bind (Owns-stable outgoing id) _ _
          (Runs-update (Owns-stable outgoing id) calm _
            (λ w k d (v, h). Steps.store i (submitting env getenv id req w) (inl (refl, refl, h))))
          λ _. Runs-bind (Owns-stable outgoing id) _ _ (Runs-ask _) λ report.
            Runs-bind (Owns-stable outgoing id) _ _
              (Runs-update (Owns-stable outgoing id) calm _
                (λ w k d (v, h). Steps.verdict i id _ (verdict_of-IsVerdict _) h))
              λ _.
                Runs-bind (Owns-stable outgoing id) _ _ (follow-Runs i id req _) (λ _. Runs-pure _)

    sms-Runs : (i : ℕ) (req : Action) → Runs IsCounted (sms env getenv i req)
    unfolding sms send_sms
    sms-Runs i req = search (Runs-if, Runs-pure, Runs-take calm outgoing, submit_as-Runs)

    unregister-Runs : (i : ℕ) (call : Option ℕ) → Runs IsCounted (unregister env getenv i call)
    unfolding unregister
    unregister-Runs i call = search rules

    place_call-Runs :
        (i : ℕ) (to : String) (c : Invited) → Runs IsCounted (place_call env getenv i to c)
    unfolding place_call
    place_call-Runs i to (refused err) = Runs-pure _
    place_call-Runs i to (invited c) =
        Runs-bind IsCounted-stable _ _
          (Runs-update IsCounted-stable calm _ (λ w k d v. Steps.call i c false to))
          (λ _. Runs-bind IsCounted-stable _ _ (Runs-spawn _ (λ s h. tt)) (λ _. Runs-pure _))

    dial-Runs :
        (i : ℕ) (call : Option ℕ) (req : Action) → Runs IsCounted (dial env getenv i call req)
    unfolding dial
    dial-Runs i call req = search (rules, place_call-Runs)

    answer_call-Runs : (call : Option ℕ) → Runs IsCounted (answer_call env getenv call)
    unfolding answer_call
    answer_call-Runs none = Runs-pure _
    answer_call-Runs (some c) = search rules

    end_call-Runs : (c : ℕ) (state : CallState) → Runs IsCounted (end_call env getenv c state)
    unfolding end_call
    end_call-Runs c confirmed = Runs-ask _
    end_call-Runs c terminated = search rules
    end_call-Runs c under_way = search rules

    hang_up-Runs : (call : Option ℕ) → Runs IsCounted (hang_up env getenv call)
    unfolding hang_up
    hang_up-Runs none = Runs-pure _
    hang_up-Runs (some c) = search (rules, end_call-Runs)

    finished-Runs :
        (m : Exec World (Option String)) → Runs IsCounted m → Runs IsCounted (finished env getenv m)
    unfolding finished
    finished-Runs m h = search (rules, h)

    perform-Runs :
        (i : ℕ) (call : Option ℕ) (req : Action) → Runs IsCounted (perform env getenv i call req)
    unfolding perform
    perform-Runs i call req =
        search
          (
            rules, finished-Runs, unregister-Runs, sms-Runs, dial-Runs, answer_call-Runs,
            hang_up-Runs,
          )
          depth 9

    finish-Runs :
        (i : ℕ) (err : Option String)
        → Runs IsCounted (update env (λ w. on_phone i (set_error err)))
    finish-Runs i err = Runs-update IsCounted-stable calm _ (λ w k d v. Steps.finish i err)

    conclude-Runs :
        (i : ℕ) (name : String) (r : Performed) → Runs IsCounted (conclude env getenv i name r)
    unfolding conclude
    conclude-Runs i name unknown = Runs-pure _
    conclude-Runs i name (done none) = search (rules, finish-Runs, Runs-log calm)
    conclude-Runs i name (done (some err)) = search (rules, finish-Runs, Runs-log calm)

    operate-Runs : (i : ℕ) (req : Action) → Runs IsCounted (operate env getenv i req)
    unfolding operate
    operate-Runs i req =
        search (rules, Runs-read IsCounted-stable calm, perform-Runs, conclude-Runs)

    admit-Runs : (req : Action) (i : Option ℕ) → Runs IsCounted (admit env getenv req i)
    unfolding admit
    admit-Runs req none = Runs-pure _
    admit-Runs req (some i) = search (rules, operate-Runs)

    admitted-Runs : (body : Option Action) → Runs IsCounted (admitted env getenv body)
    unfolding admitted
    admitted-Runs none = Runs-pure _
    admitted-Runs (some req) = search (rules, Runs-read IsCounted-stable calm, admit-Runs)

    pub action-Runs :
        (parse_host : String → Option String) (r : Request)
        → Runs IsCounted (action env getenv parse_host r)
    unfolding action
    action-Runs parse_host r = search (rules, admitted-Runs)

-- Whatever the other goroutines do between the sections of the action handler, if they run atomic
-- sections only, the dashboard that the handler leaves is reached from the one that it found by
-- atomic sections, if the counter was the number of ids that were taken (modulo 2 ^ 64).
action-Reach :
    {World : Type 0} {env : Env World} (calm : Interleaves env) (getenv : Environment)
    (parse_host : String → Option String) (r : Request) (k : List Ticket) (s : State World)
    → IsCounted (system k s.dash)
    → (tickets : List Ticket) × Reach
        (system k s.dash)
        (system tickets (action env getenv parse_host r s).1.dash)
action-Reach calm getenv parse_host r k s v =
    Runs-Reach (action-Runs calm getenv parse_host r) k s v
