-- ===== src/Browse/Handler.antt =====
-- `browse` of browse.go: POST /api/browse. What `client.Do` of a phone's web client comes to is a
-- parameter, as are the HTML parser, its escaping and the resolution of a reference against a
-- page's URL. The time that it took and the tunnel ids in the answer are not modelled.
pub mod Pages
pub mod Interleaving
use Prim.Native.String.{len, find}
use telco_helm_charts.Common.{
  ℕ, String, Bool, true, false, not, ◌&&◌, Option, none, some, List, [], ◌∷◌, leb, ltb,
  if◌then◌else◌, ◌==◌, ◌<>◌, get_elem?,
}
use telco_helm_charts.Dashboard.State.{Phone, Dashboard, event}
use telco_helm_charts.Exec.{Env, Exec, pure, ◌>>=◌, ◌>>◌, ask, locked, update}
use telco_helm_charts.Action.{same_origin, select, id_of}
use telco_helm_charts.Browse.Client.{Url, Checked, rejected, allowed, public_web_url}
use telco_helm_charts.Browse.Reader.{Node, mobile_reader, markup}
use telco_helm_charts.Browse.Outline.{WebLink, reader}

pub record Visit : Type 0 where
  pub phone : String
  pub url : String

-- `body` is the decoded JSON, or none if the decoder refused it.
pub record Request : Type 0 where
  pub origin : String
  pub host : String
  pub body : Option Visit

-- What `client.Do` returns: an error, or a response. `target` is the URL of the last request and
-- `target_text` its text; `body` is what `io.ReadAll` read of at most 1 MiB and a byte, if it did not
-- fail; `content_type` is the header.
pub record Answer : Type 0 where
  pub status : ℕ
  pub target : Url
  pub target_text : String
  pub content_type : String
  pub body : Option String

pub data Fetched : Type 0 where
  failed : String → Fetched
  fetched : Answer → Fetched

-- What the reader shows of a page.
pub record Page : Type 0 where
  pub url : String
  pub title : String
  pub text : String
  pub html : String
  pub links : List WebLink
  pub status : ℕ
  pub bytes : ℕ
  pub ue_ip : String

-- `http.Error`, a JSON object with "error", or the JSON object of a page.
pub data Body : Type 0 where
  plain : String → Body
  error : String → Body
  page : Page → Body

pub record Response : Type 0 where
  pub status : ℕ
  pub body : Body

abbrev pub respond : ℕ → Body → Response
respond status body = record { status = status; body = body }

-- `strings.Contains(s, part)`
unfoldable pub contains : String → String → Bool
contains s part = leb (find s part) (len s)

abbrev pub with_address : ℕ → Option Phone → Option (ℕ × String)
with_address i none = none
with_address i (some p) = if p.internet_ip == "" then none else some (i, p.internet_ip)

-- The phone that a request names and its address, if the dashboard is ready and the phone has one.
unfoldable pub online : String → Dashboard → Option (ℕ × String)
online id d = elim (select id d) [ none ↦ none | some i ↦ with_address i (get_elem? d.phones i) ]

module _ (parse : String → Option Url) (parse_html : String → Option Node)
    (resolve : String → String → Option String) (escape : String → String)
    (number : ℕ → String) where
  -- A page of text/plain is shown as it is; any other goes through the two readers.
  unfoldable pub page_of : String → Answer → String → Page
  page_of ip a body =
      let (title, text, links) = reader parse (resolve a.target_text) body (parse_html body) in
      let html =
        markup parse (resolve a.target_text) escape
          (mobile_reader parse (resolve a.target_text) escape (parse_html body)) in
      let is_plain = contains a.content_type "text/plain" in
      record {
        url = a.target_text;
        title = if is_plain then a.target.hostname else title;
        text = if is_plain then body else text;
        html = if is_plain then "<pre>" <> escape body <> "</pre>" else html;
        links = links;
        status = a.status;
        bytes = len body;
        ue_ip = ip;
      }

  module _ {World : Type 0} (env : Env World)
      (fetch : ℕ → (ip url : String) → World → Fetched × World) where
    abbrev pub log : ℕ → String → Exec World (Unit {0})
    log i text = update env (λ w d. event (env.now w) (id_of i d) text d)

    -- From the check of the content type on.
    unfoldable pub show : ℕ → String → Answer → String → Exec World Response
    show i ip a body =
        if not (contains a.content_type "text/html") && not (contains a.content_type "text/plain")
        then pure (respond 415 (error "reader supports HTML and plain text pages"))
        else do
          log i (
              "UE internet: "
              <> a.target.hostname
              <> " returned HTTP "
              <> number a.status
              <> " ("
              <> number (len body)
              <> " bytes)")
          pure (respond 200 (page (page_of ip a body)))

    -- From the reading of the body on.
    unfoldable pub read_body : ℕ → String → Answer → Option String → Exec World Response
    read_body i ip a none =
        pure (respond 502 (error "page exceeds the 1 MiB reader limit or could not be read"))
    read_body i ip a (some body) =
        if ltb 1048576 (len body)
        then pure (respond 502 (error "page exceeds the 1 MiB reader limit or could not be read"))
        else show i ip a body

    -- What comes after `client.Do`, for a URL of the host.
    unfoldable pub after_fetch : ℕ → (ip host : String) → Fetched → Exec World Response
    after_fetch i ip host (failed err) = do
      log i ("UE browse failed for " <> host)
      pure (respond 502 (error err))
    after_fetch i ip host (fetched a) = read_body i ip a a.body

    unfoldable pub visit : (url host : String) → Option (ℕ × String) → Exec World Response
    visit url host none = pure (respond 409 (error "UE internet session is not ready"))
    visit url host (some (i, ip)) = do result ← ask (fetch i ip url); after_fetch i ip host result

    unfoldable pub checked_visit : Visit → Checked → Exec World Response
    checked_visit req (rejected err) = pure (respond 400 (error err))
    checked_visit req (allowed u) = do
      found ← locked env (λ w d. (online req.phone d, d))
      visit req.url u.hostname found

    unfoldable pub decoded_visit : Option Visit → Exec World Response
    decoded_visit none = pure (respond 400 (plain "invalid request"))
    decoded_visit (some req) = checked_visit req (public_web_url parse req.url)

    unfoldable pub browse : (parse_host : String → Option String) → Request → Exec World Response
    browse parse_host r =
        if same_origin parse_host r.origin r.host
        then decoded_visit r.body
        else pure (respond 403 (plain "same-origin requests only"))
