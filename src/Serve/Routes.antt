-- ===== src/Serve/Routes.antt =====
-- `ServePhones` of server.go and `browserRoutes` of browser.go: which handler a request goes to, and
-- what it answers. The patterns are matched as `http.ServeMux` does; the encoding of the answers is
-- not modelled.
pub mod Origin
pub mod Interleaving
use telco_helm_charts.Common.{
  ℕ, String, Bool, true, false, ◌||◌, Option, none, some, List, if◌then◌else◌, ◌==◌,
}
use telco_helm_charts.Mode.{Environment, phone_ids}
use telco_helm_charts.Exec.{Env, Exec, pure, ◌>>=◌}
use telco_helm_charts.Action as Actions
use telco_helm_charts.Action.{Action, action}
use telco_helm_charts.Receive.{Sms}
use telco_helm_charts.Media.{Voice}
use telco_helm_charts.Setup.Initialize.{Setup}
use telco_helm_charts.Browse.Client.{Url}
use telco_helm_charts.Browse.Client.Sockets.{has_prefix}
use telco_helm_charts.Browse.Reader.{Node}
use telco_helm_charts.Browse.Handler
use telco_helm_charts.Browse.Handler.{Visit, Fetched, browse}
use telco_helm_charts.Browser.Viewer.{Availability, availability, viewer}
use telco_helm_charts.Browser.Navigation
use telco_helm_charts.Browser.Navigation.{Chromium, navigate}
use telco_helm_charts.Proxy.Headers.{Header}
use telco_helm_charts.Serve.{Replacement, replace_all, index_page}
use telco_helm_charts.Snapshot.{Reading, Info, state}

-- All that is not Go code of the program: the environment, the printing of numbers and letters, the
-- libraries, the network, the parsers, the viewer, Chromium, the files of the page, and `clean`, which
-- gives the path that `http.ServeMux` takes a path for, without dots and doubled slashes.
pub record Surroundings (World : Type 0) : Type 0 where
  pub getenv : Environment
  pub number : ℕ → String
  pub letter : ℕ → String
  pub setup : Setup World
  pub voice : Voice World
  pub reading : Reading World
  pub next_sms : ℕ → World → Option Sms × World
  pub next_call : ℕ → World → Option ℕ × World
  pub parse : String → Option Url
  pub print : Url → String
  pub parse_html : String → Option Node
  pub resolve : String → String → Option String
  pub escape : String → String
  pub fetch : ℕ → (ip url : String) → World → Fetched × World
  pub parse_host : String → Option String
  pub view : Header → Header
  pub chromium : Chromium
  pub quoted : String → String
  pub apply : Replacement → String → String
  pub clean : String → String
  pub template : String
  pub enhancements : String

-- `action`, `visit` and `target` are what the decoders of the three handlers make of the body.
pub record Request : Type 0 where
  pub method : String
  pub path : String
  pub origin : String
  pub host : String
  pub header : Header
  pub action : Option Action
  pub visit : Option Visit
  pub target : Option String

-- The patterns, and what `http.ServeMux` does without one: a redirect, or status 405.
pub data Route : Type 0 where
  state_route action_route browse_route availability_route viewer_route navigate_route script_route
        health_route index_route method_refused :
      Route
  moved_route : (to : String) → Route

-- A pattern of GET is one of HEAD too, and GET / takes every path that is left.
unfoldable pub get_route : (path : String) → Route
unfolding has_prefix
get_route path =
    if path == "/api/state"
    then state_route
    else if path == "/api/browser"
    then availability_route
    else if has_prefix path "/browser/"
    then viewer_route
    else if path == "/browser"
    then moved_route "/browser/"
    else if path == "/enhancements.js"
    then script_route
    else if path == "/healthz"
    then health_route
    else index_route

unfoldable pub post_route : (path : String) → Route
post_route path =
    if path == "/api/action"
    then action_route
    else if path == "/api/browse"
    then browse_route
    else if path == "/api/browser/navigate"
    then navigate_route
    else method_refused

unfoldable pub match_route : (method path : String) → Route
unfolding get_route post_route
match_route method path =
    if method == "GET" || method == "HEAD"
    then get_route path
    else if method == "POST"
    then post_route path
    else method_refused

-- A path that is not clean is redirected, even where its method is refused.
abbrev pub on_path : (path cleaned : String) → Route → Route
on_path path cleaned (moved_route to) = moved_route to
on_path path cleaned found = if cleaned == path then found else moved_route cleaned

-- No pattern takes the method CONNECT, whose path is not cleaned.
unfoldable pub route : (clean : String → String) → (method path : String) → Route
unfolding match_route
route clean method path =
    let cleaned = clean path in
    let found = match_route method cleaned in
    if method == "CONNECT" then method_refused else on_path path cleaned found

pub data Reply : Type 0 where
  told : Info → Reply
  acted : Actions.Response → Reply
  browsed : Handler.Response → Reply
  told_browser : Availability → Reply
  viewed : Option Header → Reply
  navigated : Navigation.Outcome → Reply
  script : String → Reply
  healthy : Reply
  index : Option String → Reply
  moved : String → Reply
  no_method : Reply

module _ {World : Type 0} (env : Env World) (around : Surroundings World) where
  abbrev pub handle : Route → Request → Exec World Reply
  handle state_route r = do i ← state env around.reading around.getenv; pure (told i)
  handle action_route r = do
    a ←
        action env around.getenv around.parse_host
          (record { origin = r.origin; host = r.host; body = r.action })
    pure (acted a)
  handle browse_route r = do
    a ←
        browse around.parse around.parse_html around.resolve around.escape around.number env
          around.fetch around.parse_host
          (record { origin = r.origin; host = r.host; body = r.visit })
    pure (browsed a)
  handle availability_route r = pure (told_browser (availability around.getenv))
  handle viewer_route r =
      pure (viewed (viewer around.view around.parse_host r.origin r.host r.header))
  handle navigate_route r = pure (
      navigated (
        navigate around.chromium around.parse around.print around.getenv around.parse_host
          (record { origin = r.origin; host = r.host; body = r.target })))
  handle script_route r = pure (
      script (around.apply (replace_all "['1','2']" (phone_ids around.getenv)) around.enhancements))
  handle health_route r = pure healthy
  handle index_route r =
      pure (index (index_page around.apply around.getenv around.quoted around.template r.path))
  handle (moved_route to) r = pure (moved to)
  handle method_refused r = pure no_method

  unfoldable pub respond : Request → Exec World Reply
  unfolding route
  respond r = handle (route around.clean r.method r.path) r
