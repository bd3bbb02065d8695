-- ===== src/Browser/Viewer/Caching.antt =====
-- The viewer of the remote browser is not cached.
use mathlib.Core.Option
use telco_helm_charts.Common.{
  String, Bool, true, Option, none, some, List, [], ◌∷◌, ◌≡◌, ◌∙◌, ap, arith, if◌then◌else◌,
  Bool-cases, inl, inr,
}
use telco_helm_charts.Action.{same_origin}
use telco_helm_charts.Proxy.Headers.{
  Bytes, Header, ascii, bytes_eq, canonical, values, del, is_token, is_upper, is_lower,
}
use telco_helm_charts.Proxy.Headers.Hop.{values-del}
use telco_helm_charts.Proxy.Headers.Copy.{values-insert_value}
use telco_helm_charts.Browser.Viewer.{set, to_viewer, from_viewer, viewer}

-- The conditions on a request, and the keys that identify the version of an answer.
abbrev pub is_conditional : Bytes → Bool
is_conditional key =
    if bytes_eq (ascii "If-Modified-Since") key then true else bytes_eq (ascii "If-None-Match") key

to_viewer-values :
    (key : Bytes) (h : Header)
    → values key (to_viewer h) ≡ (if is_conditional key then [] else values key h)
unfolding to_viewer canonical is_token is_upper is_lower
to_viewer-values key h = ground (
  arith,
  values-del (ascii "If-Modified-Since") key h,
  values-del (ascii "If-None-Match") key (del (ascii "If-Modified-Since") h),
)

abbrev pub uncached : Bytes → Header → List Bytes
uncached key h =
    if bytes_eq (ascii "Etag") key
    then []
    else if bytes_eq (ascii "Last-Modified") key
    then []
    else if bytes_eq (ascii "Cache-Control") key
    then ascii "no-store" ∷ []
    else values key h

set-values :
    (name value : String) (key : Bytes) (h : Header)
    → values key (set name value h)
      ≡ (if bytes_eq (canonical (ascii name)) key then ascii value ∷ [] else values key h)
unfolding set
set-values name value key h = ground (
  arith,
  values-insert_value (canonical (ascii name)) (ascii value) key (del (ascii name) h),
  values-del (ascii name) key h,
)

from_viewer-values : (key : Bytes) (h : Header) → values key (from_viewer h) ≡ uncached key h
unfolding from_viewer canonical is_token is_upper is_lower
from_viewer-values key h =
    let stored = set "Cache-Control" "no-store" h in
    values-del (ascii "ETag") key (del (ascii "Last-Modified") stored)
    ∙ ap (λ l. if bytes_eq (ascii "Etag") key then [] else l)
        (values-del (ascii "Last-Modified") key stored
          ∙ ap (λ l. if bytes_eq (ascii "Last-Modified") key then [] else l)
              (set-values "Cache-Control" "no-store" key h))

-- The viewer is never cached: a request that is passed on has no condition and keeps its other
-- headers, and of its answer the client gets the headers without the keys of a version, with
-- `no-store` as the only Cache-Control, and the others as they are. A request of another origin is
-- refused.
viewer-values :
    (proxy : Header → Header) (parse_host : String → Option String) (origin host : String)
    (h : Header) (key : Bytes)
    → (values key (to_viewer h) ≡ (if is_conditional key then [] else values key h))
      × (Option.map (values key) (viewer proxy parse_host origin host h) ≡ (
          if same_origin parse_host origin host
          then some (uncached key (proxy (to_viewer h)))
          else none))
unfolding viewer
viewer-values proxy parse_host origin host h key = (
  to_viewer-values key h,
  elim (Bool-cases (same_origin parse_host origin host)) [
    | inl e ↦ rw e (ap (λ l. some l) (from_viewer-values key (proxy (to_viewer h))))
    | inr e ↦ rw e
  ],
)
