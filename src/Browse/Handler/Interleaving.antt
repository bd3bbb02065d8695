-- ===== src/Browse/Handler/Interleaving.antt =====
-- The browse handler among the other goroutines: all that it does to the dashboard is to log.
use telco_helm_charts.Common.{ℕ, String, Option, none, some}
use telco_helm_charts.Dashboard.Steps.{IsCounted}
use telco_helm_charts.Exec.{Env}
use telco_helm_charts.Exec.Runs.{Interleaves, Runs, Runs-pure, Runs-read}
use telco_helm_charts.Exec.Take.{IsCounted-stable, Runs-log, rules}
use telco_helm_charts.Browse.Client.{Url, Checked, rejected, allowed, public_web_url}
use telco_helm_charts.Browse.Reader.{Node}
use telco_helm_charts.Browse.Handler.{
  Visit, Request, Answer, Fetched, failed, fetched, show, read_body, after_fetch, visit,
  checked_visit, decoded_visit, browse,
}

module _ (parse : String → Option Url) (parse_html : String → Option Node)
    (resolve : String → String → Option String) (escape : String → String) (number : ℕ → String)
    {World : Type 0} {env : Env World} (calm : Interleaves env)
    (fetch : ℕ → (ip url : String) → World → Fetched × World) where
  show-Runs :
      (i : ℕ) (ip : String) (a : Answer) (body : String)
      → Runs IsCounted (show parse parse_html resolve escape number env fetch i ip a body)
  unfolding show
  show-Runs i ip a body = search (rules, Runs-log calm)

  after_fetch-Runs :
      (i : ℕ) (ip host : String) (r : Fetched)
      → Runs IsCounted (after_fetch parse parse_html resolve escape number env fetch i ip host r)
  unfolding after_fetch read_body
  after_fetch-Runs i ip host (failed err) = search (rules, Runs-log calm)
  after_fetch-Runs i ip host (fetched a) = read_body-Runs a.body
    where
      read_body-Runs :
          (body : Option String)
          → Runs IsCounted (read_body parse parse_html resolve escape number env fetch i ip a body)
      read_body-Runs none = Runs-pure _
      read_body-Runs (some body) = search (rules, show-Runs)

  visit-Runs :
      (url host : String) (found : Option (ℕ × String))
      → Runs IsCounted (visit parse parse_html resolve escape number env fetch url host found)
  unfolding visit
  visit-Runs url host none = Runs-pure _
  visit-Runs url host (some (i, ip)) = search (rules, after_fetch-Runs)

  decoded_visit-Runs :
      (body : Option Visit)
      → Runs IsCounted (decoded_visit parse parse_html resolve escape number env fetch body)
  unfolding decoded_visit checked_visit
  decoded_visit-Runs none = Runs-pure _
  decoded_visit-Runs (some req) = checked_visit-Runs (public_web_url parse req.url)
    where
      checked_visit-Runs :
          (c : Checked)
          → Runs IsCounted (checked_visit parse parse_html resolve escape number env fetch req c)
      checked_visit-Runs (rejected err) = Runs-pure _
      checked_visit-Runs (allowed u) = search (rules, Runs-read IsCounted-stable calm, visit-Runs)

  pub browse-Runs :
      (parse_host : String → Option String) (r : Request)
      → Runs IsCounted (browse parse parse_html resolve escape number env fetch parse_host r)
  unfolding browse
  browse-Runs parse_host r = search (rules, decoded_visit-Runs)
