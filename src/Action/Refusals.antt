-- ===== src/Action/Refusals.antt =====
-- The requests that the action handler refuses before it operates a phone.
use telco_helm_charts.Common.{
  ℕ, String, false, Option, some, ◌≡◌, ◌≢◌, ◌⊎◌, inl, inr, Option-cases, arith, eq_iff,
}
use telco_helm_charts.Mode.{Environment, services_enabled}
use telco_helm_charts.Exec.{Env, State, pure, ◌>>=◌, locked}
use telco_helm_charts.Action.{Request, plain, respond, same_origin, admit, admitted, action}

pub same_origin_cross :
    (parse_host : String → Option String) (origin host : String)
    → origin ≢ ""
    → parse_host origin ≢ some host
    → same_origin parse_host origin host ≡ false
unfolding same_origin
same_origin_cross parse_host origin host h k = elim (Option-cases (parse_host origin)) [
  | inl e ↦ ground (arith, eq_iff origin "")
  | inr (found, e) ↦ ground (arith, eq_iff origin "", eq_iff found host)
]

module _ {World : Type 0} (env : Env World) (getenv : Environment)
    (parse_host : String → Option String) (r : Request) (s : State World) where
  -- A request with an Origin header that cannot be parsed, or whose host is not the requested
  -- one, is answered by 403, and nothing changes.
  action-cross_origin :
      r.origin ≢ ""
      → parse_host r.origin ≢ some r.host
      → action env getenv parse_host r s ≡ (respond 403 (plain "same-origin requests only"), s)
  unfolding action pure
  action-cross_origin h k = rw (same_origin_cross parse_host r.origin r.host h k)

  -- The state after the other goroutines ran once.
  abbrev pub after_others : State World
  after_others = let (d, w) = env.others s.dash s.world in record s { dash = d; world = w }

  abbrev pub IsRefusal : ℕ → Type 0
  IsRefusal status = (status ≡ 400) ⊎ (status ≡ 403) ⊎ (status ≡ 409)

  -- If the mode is not the one with IMS and SMS, every request is refused with 400, 403 or 409,
  -- and the handler itself changes nothing, calls no library and starts no goroutine.
  pub action-internet_mode :
      services_enabled getenv ≡ false
      → IsRefusal (action env getenv parse_host r s).0.status
        × (((action env getenv parse_host r s).1 ≡ s)
            ⊎ ((action env getenv parse_host r s).1 ≡ after_others))
  unfolding action admitted admit pure locked ◌>>=◌
  action-internet_mode h = ground arith
