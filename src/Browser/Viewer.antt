-- ===== src/Browser/Viewer.antt =====
-- `browserRoutes`, GET /browser/ and GET /api/browser: the viewer of the remote browser. The proxy of
-- net/http/httputil is a parameter.
pub mod Caching
use telco_helm_charts.Common.{String, Bool, Option, none, some, List, [], ◌∷◌, if◌then◌else◌, ◌==◌}
use telco_helm_charts.Mode.{Environment}
use telco_helm_charts.Action.{same_origin}
use telco_helm_charts.Proxy.Headers.{Bytes, Header, ascii, canonical, del, insert_value}

-- `header.Set(name, value)`
unfoldable pub set : String → String → Header → Header
unfolding del
set name value h = insert_value (canonical (ascii name)) (ascii value) (del (ascii name) h)

-- What GET /api/browser tells.
pub record Availability : Type 0 where
  pub enabled : Bool
  pub version : String

unfoldable pub availability : Environment → Availability
availability getenv = record {
  enabled = getenv "BROWSER_ENABLED" == "true";
  version = getenv "BROWSER_VIEWER_VERSION";
}

-- The header that is sent on.
unfoldable pub to_viewer : Header → Header
to_viewer h = del (ascii "If-None-Match") (del (ascii "If-Modified-Since") h)

-- `ModifyResponse`
unfoldable pub from_viewer : Header → Header
unfolding set
from_viewer h = del (ascii "ETag") (del (ascii "Last-Modified") (set "Cache-Control" "no-store" h))

-- The header of the answer, or none for an answer of status 403. `proxy` has the header of the
-- viewer's answer to a request with a header.
unfoldable pub viewer :
    (proxy : Header → Header) (parse_host : String → Option String) (origin host : String)
    → Header
    → Option Header
viewer proxy parse_host origin host h =
    if same_origin parse_host origin host then some (from_viewer (proxy (to_viewer h))) else none
