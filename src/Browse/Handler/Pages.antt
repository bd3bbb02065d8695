-- ===== src/Browse/Handler/Pages.antt =====
-- What the browse handler answers.
use telco_helm_charts.Common.{ℕ, ◌≤◌, String, true, Option, some, List, ◌≡◌, ◌≢◌, ◌⊎◌, All, ◌<>◌}
use telco_helm_charts.Dashboard.State.{Dashboard}
use telco_helm_charts.Exec.{State}
use telco_helm_charts.Action.{same_origin}
use telco_helm_charts.Browse.Client.{Url, allowed, public_web_url}
use telco_helm_charts.Browse.Reader.{Node, Token, markup}
use telco_helm_charts.Browse.Reader.Markup.{IsMarkup}
use telco_helm_charts.Browse.Outline.Links.{IsLink, Distinct}
use telco_helm_charts.Browse.Handler.{Visit, Request, Page, Body, plain, error, page, Response}

-- An answer has status 200 exactly if it is a page, and then `Q` holds of the page.
abbrev pub FitsBody : (Q : Page → Type 0) → ℕ → Body → Type 0
FitsBody Q status (plain text) = status ≢ 200
FitsBody Q status (error text) = status ≢ 200
FitsBody Q status (page p) = (status ≡ 200) × Q p

abbrev pub Fits : (Q : Page → Type 0) → Response → Type 0
Fits Q r = FitsBody Q r.status r.body

module _ (parse : String → Option Url) (parse_html : String → Option Node)
    (resolve : String → String → Option String) (escape : String → String)
    (number : ℕ → String) where
  -- What is shown is at most 1 MiB that was read through an address of a phone; its links are those of
  -- `reader`; its HTML is the text of markup, or an escaped text.
  pub record IsShown (p : Page) : Type 0 where
    pub size : p.bytes ≤ 1048576
    pub address : p.ue_ip ≢ ""
    pub links : All (IsLink parse) p.links
    pub distinct : Distinct p.links
    pub html :
        ((ts : List Token) × IsMarkup parse ts × (p.html ≡ markup parse (resolve p.url) escape ts))
        ⊎ (p.html ≡ "<pre>" <> escape p.text <> "</pre>")

  -- A request from the same origin for a URL that is allowed.
  pub record IsAccepted (parse_host : String → Option String) (r : Request) : Type 0 where
    pub same : same_origin parse_host r.origin r.host ≡ true
    pub asked : Visit
    pub decoded : r.body ≡ some asked
    pub target : Url
    pub checked : public_web_url parse asked.url ≡ allowed target
