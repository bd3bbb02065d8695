-- ===== src/Serve/Routes/Interleaving.antt =====
-- The requests of the server by the side of the other goroutines.
use telco_helm_charts.Dashboard.Steps.{IsCounted}
use telco_helm_charts.Exec.{Env}
use telco_helm_charts.Exec.Runs.{Interleaves, Runs, Runs-pure}
use telco_helm_charts.Exec.Take.{IsCounted-bind}
use telco_helm_charts.Action.Interleaving.{action-Runs}
use telco_helm_charts.Browse.Handler.Interleaving.{browse-Runs}
use telco_helm_charts.Snapshot.Interleaving.{state-Runs}
use telco_helm_charts.Serve.Routes.{
  Surroundings, Request, Route, state_route, action_route, browse_route, availability_route,
  viewer_route, navigate_route, script_route, health_route, index_route, moved_route,
  method_refused, handle, respond, route,
}

module _ {World : Type 0} {env : Env World} (calm : Interleaves env)
    (around : Surroundings World) where
  handle-Runs : (p : Route) (r : Request) → Runs IsCounted (handle env around p r)
  handle-Runs state_route r =
      IsCounted-bind _ _ (state-Runs calm around.getenv around.reading) (λ i. Runs-pure _)
  handle-Runs action_route r =
      IsCounted-bind _ _ (action-Runs calm around.getenv around.parse_host _) (λ a. Runs-pure _)
  handle-Runs browse_route r =
      IsCounted-bind _ _
        (browse-Runs around.parse around.parse_html around.resolve around.escape around.number calm
          around.fetch around.parse_host _)
        (λ a. Runs-pure _)
  handle-Runs availability_route r = Runs-pure _
  handle-Runs viewer_route r = Runs-pure _
  handle-Runs navigate_route r = Runs-pure _
  handle-Runs script_route r = Runs-pure _
  handle-Runs health_route r = Runs-pure _
  handle-Runs index_route r = Runs-pure _
  handle-Runs (moved_route to) r = Runs-pure _
  handle-Runs method_refused r = Runs-pure _

  pub respond-Runs : (r : Request) → Runs IsCounted (respond env around r)
  unfolding respond
  respond-Runs r = handle-Runs (route around.clean r.method r.path) r
