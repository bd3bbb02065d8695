-- ===== src/Tests/Remote.antt =====
-- The remote browser on concrete commands, messages and headers.
use telco_helm_charts.Common.{
  ℕ, ◌≤◌, String, true, false, Option, none, some, List, [], ◌∷◌, ◌≡◌, ◌↔◌, ◌⊎◌, if◌then◌else◌,
  ◌==◌,
}
use telco_helm_charts.Browse.Client.{Url}
use telco_helm_charts.Browser.Navigation.{Request, Message, Tab, Chromium, refuse, navigate}
use telco_helm_charts.Browser.Navigation.Courses.{Visited, IsAccepted, navigate-Visited}
use telco_helm_charts.Browser.Egress.{start_browser_proxy}
use telco_helm_charts.Browser.Egress.Opening.{opens}
use telco_helm_charts.Browser.Egress.Rules.{IsProtected, all_effects, start_browser_proxy-opens_iff}
use telco_helm_charts.Proxy.Headers.{Header, ascii}

abbrev site : Url
site = record { scheme = "https"; hostname = "a.org"; port = ""; has_user = false }

abbrev parse : String → Option Url
parse raw = some site

abbrev pub print : Url → String
print u = "https://a.org/"

abbrev getenv : String → String
getenv name = if name == "BROWSER_ENABLED" then "true" else ""

abbrev parse_host : String → Option String
parse_host origin = some "ue.local"

abbrev reply : ℕ → Message
reply n = record { id = some n; error = none }

abbrev notice : Message
notice = record { id = none; error = none }

abbrev tab : String → Tab
tab kind = record { kind = kind; socket_url = "ws://127.0.0.1:9222/devtools/page/1" }

-- Each command is answered, the first one after a notice.
abbrev pub chromium : Chromium
chromium = record {
  tabs = some (tab "service_worker" ∷ tab "page" ∷ []);
  dial_error = λ url. none;
  send_error = λ c. none;
  messages = notice ∷ reply 1 ∷ reply 2 ∷ reply 3 ∷ reply 4 ∷ [];
  broken = "EOF";
}

abbrev asked : Request
asked = record { origin = "http://ue.local"; host = "ue.local"; body = some "https://a.org/" }

navigate-Visited_example :
    ((status : ℕ) × (text : String) × (400 ≤ status)
      × (navigate chromium parse print getenv parse_host asked ≡ refuse status text))
    ⊎ ((target : Url) × IsAccepted parse getenv parse_host asked target
        × Visited chromium (print target) (navigate chromium parse print getenv parse_host asked))
navigate-Visited_example = navigate-Visited chromium parse print getenv parse_host asked

abbrev failure : String → List String → Option String
failure firewall args = none

start_browser_proxy-opens_iff_example :
    ((opens (start_browser_proxy failure 1 none).effects ≡ true)
      ↔ (IsProtected failure 1 × (◌≡◌ {A = Option String} none none)))
    × (((start_browser_proxy failure 1 none).error ≡ none)
        ↔ (IsProtected failure 1 × (◌≡◌ {A = Option String} none none)))
    × (((start_browser_proxy failure 1 none).effects ≡ all_effects failure)
        ↔ (IsProtected failure 1 × (◌≡◌ {A = Option String} none none)))
start_browser_proxy-opens_iff_example = start_browser_proxy-opens_iff failure 1 none

abbrev echo : Header → Header
echo h = (ascii "Etag", ascii "1" ∷ []) ∷ h

abbrev sent_headers : Header
sent_headers = (ascii "If-None-Match", ascii "1" ∷ []) ∷ (ascii "Accept", ascii "*" ∷ []) ∷ []
