-- ===== src/Snapshot/Interleaving.antt =====
-- The snapshot of the dashboard (`state` of server.go) by the side of the other goroutines.
use telco_helm_charts.Common.{ℕ, zero, suc}
use telco_helm_charts.Mode.{Environment}
use telco_helm_charts.Dashboard.Steps.{IsCounted}
use telco_helm_charts.Exec.{Env}
use telco_helm_charts.Exec.Runs.{Interleaves, Runs, Runs-pure, Runs-observe, Runs-read}
use telco_helm_charts.Exec.Take.{IsCounted-stable, IsCounted-bind}
use telco_helm_charts.Snapshot.{Reading, infos, state}

module _ {World : Type 0} {env : Env World} (calm : Interleaves env) (getenv : Environment) where
  infos-Runs : (reading : Reading World) (i n : ℕ) → Runs IsCounted (infos env reading getenv i n)
  unfolding infos
  infos-Runs reading i zero = Runs-pure _
  infos-Runs reading i (suc n) =
      IsCounted-bind _ _ (Runs-read IsCounted-stable calm _)
        λ here. IsCounted-bind _ _ (infos-Runs reading (suc i) n) (λ rest. Runs-pure _)

  pub state-Runs : (reading : Reading World) → Runs IsCounted (state env reading getenv)
  unfolding state
  state-Runs reading = IsCounted-bind _ _ (Runs-read IsCounted-stable calm _) λ d.
      IsCounted-bind _ _ (infos-Runs reading 0 _)
        λ phones. IsCounted-bind _ _ (Runs-observe env _) (λ now. Runs-pure _)
