-- ===== src/Proxy.antt =====
-- images/5g-ue-http-proxy/main.go: the HTTP proxy whose traffic leaves through the UE's interface.
-- A body is bytes; the dialer, the transport's round trip and the hijacker of net/http are
-- parameters. Log lines and deadlines are not modelled.
pub mod Startup
pub mod Headers
pub mod Forwarding
pub mod Tunnel
pub mod Sockets
pub mod Relay
pub mod Main
use telco_helm_charts.Common.{
  ℕ, ◌+◌, String, Char, code, Bool, true, false, not, ◌&&◌, ◌||◌, Option, none, some, List, [], ◌∷◌,
  nat_eq, ◌==◌, ◌<>◌, if◌then◌else◌,
}
use telco_helm_charts.Proxy.Headers.{Bytes, Header, ascii, remove_hop_headers, copy_headers}

-- -1 and the natural numbers.
pub data Limit : Type 0 where
  at_most : ℕ → Limit
  no_idle : Limit

-- The fields of `http.Transport` that the requests change; the others are those of `newProxy`.
pub record Transport : Type 0 where
  pub disable_keep_alives : Bool
  pub max_idle_conns : ℕ
  pub max_idle_conns_per_host : Limit

-- What `newProxy` sets; a limit of 0 per host is the default of net/http.
abbrev pub new_transport : Transport
new_transport = record {
  disable_keep_alives = false;
  max_idle_conns = 100;
  max_idle_conns_per_host = at_most 0;
}

pub record Url : Type 0 where
  pub scheme : String
  pub host : String
  pub path : String

pub record Request : Type 0 where
  pub method : String
  pub url : Url
  pub host : String
  pub request_uri : String
  pub close : Bool
  pub header : Header
  pub body : Bytes

pub record Response : Type 0 where
  pub status : ℕ
  pub header : Header
  pub body : Bytes

-- The transports of the process by reference, so that a write through one reference is seen through
-- every other one; references from `next` on are unused.
pub record Store : Type 0 where
  pub next : ℕ
  pub get : ℕ → Transport

abbrev pub assign : ℕ → (Transport → Transport) → Store → Store
assign ref f s = record s { get = λ q. if nat_eq q ref then f (s.get q) else s.get q }

-- `Clone`: a new reference to a copy.
abbrev pub clone : ℕ → Store → ℕ × Store
clone ref s = (
  s.next,
  record { next = s.next + 1; get = λ q. if nat_eq q s.next then s.get ref else s.get q },
)

-- `requestTransport`: the reference of the shared transport, or of a dedicated one for an upload, and
-- the store afterwards, with the three assignments in their order.
unfoldable pub request_transport : (shared : ℕ) → String → Store → (ℕ × Bool) × Store
request_transport shared method s =
    if not (method == "POST") && not (method == "PUT") && not (method == "PATCH")
    then ((shared, false), s)
    else (let (transport, s1) = clone shared s in
        (
          (transport, true),
          assign transport (λ t. record t { max_idle_conns_per_host = no_idle })
              (assign transport (λ t. record t { max_idle_conns = 0 })
                (assign transport (λ t. record t { disable_keep_alives = true }) s1)),
        ))

-- The store of a proxy whose transport is `shared`, at the reference 0.
abbrev pub store_of : Transport → Store
store_of shared = record { next = 1; get = λ q. shared }

unfoldable pub default_to : String → String → String
default_to s fallback = if s == "" then fallback else s

-- The request that `forward` sends.
unfoldable pub outbound : Request → Request
unfolding default_to
outbound r = record r {
  request_uri = "";
  url = record r.url {
    scheme = default_to r.url.scheme "http";
    host = default_to r.url.host r.host;
  };
  header = remove_hop_headers r.header;
}

-- What `forward` did: the transport and the request of its round trip, the proxy's own transport
-- afterwards, whether the idle connections of the round trip's transport were closed afterwards, and
-- the answer to the client.
pub record Forwarded : Type 0 where
  pub transport : Transport
  pub shared : Transport
  pub sent : Request
  pub closed_idle : Bool
  pub answer : Response

-- `http.Error(writer, text, status)`
abbrev pub failure : ℕ → String → Response
failure status text = record {
  status = status;
  header =
      (ascii "Content-Type", ascii "text/plain; charset=utf-8" ∷ [])
      ∷ (ascii "X-Content-Type-Options", ascii "nosniff" ∷ [])
      ∷ [];
  body = ascii text;
}

answer_of : Option Response → Response
answer_of none = failure 502 "UE tunnel request failed"
answer_of (some r) = record r { header = copy_headers [] (remove_hop_headers r.header) }

abbrev pub close_if : Bool → Request → Request
close_if true r = record r { close = true }
close_if false r = r

module _ (shared : Transport) (round_trip : Transport → Request → Option Response) where
  unfoldable pub forward : Request → Forwarded
  unfolding answer_of
  forward r =
      let ((ref, dedicated), store) = request_transport 0 r.method (store_of shared) in
      let transport = store.get ref in
      let sent = close_if dedicated (outbound r) in
      record {
        transport = transport;
        shared = store.get 0;
        sent = sent;
        closed_idle = dedicated;
        answer = answer_of (round_trip transport sent);
      }

-- `strings.Contains(target, ":")`
unfoldable pub has_colon : String → Bool
has_colon String.[] = false
has_colon (String.◌∷◌ c s) = nat_eq (code c) b':' || has_colon s

unfoldable pub tunnel_target : String → String
unfolding has_colon
tunnel_target host = if has_colon host then host else host <> ":443"

-- What `connect` does in order.
pub data Effect : Type 0 where
  dial : String → Effect
  close_upstream : Effect
  fail : ℕ → String → Effect
  established : Effect
  tunnel : Effect

-- `hijack` is none if the writer is no hijacker, else whether hijacking succeeds.
unfoldable pub connect : (dials : String → Bool) → (hijack : Option Bool) → Request → List Effect
connect dials hijack r =
    let target = tunnel_target r.host in
    dial target
    ∷ (if dials target
        then (elim hijack [
          | none ↦ close_upstream ∷ fail 500 "connection hijacking unsupported" ∷ []
          | some ok ↦ if ok then established ∷ tunnel ∷ [] else close_upstream ∷ []
        ])
        else fail 502 "UE tunnel connection failed" ∷ [])

-- `ServeHTTP`: one of three courses.
pub data Course : Type 0 where
  healthy : Response → Course
  connected : List Effect → Course
  forwarded : Forwarded → Course

abbrev pub health : Response
health = record {
  status = 200;
  header = (ascii "Content-Type", ascii "text/plain" ∷ []) ∷ [];
  body = 111 ∷ 107 ∷ 10 ∷ [];
}

module _ (shared : Transport) (round_trip : Transport → Request → Option Response)
    (dials : String → Bool) (hijack : Option Bool) where
  unfoldable pub serve : Request → Course
  serve r =
      if not (r.method == "CONNECT") && r.url.path == "/healthz" && r.url.host == ""
      then healthy health
      else if r.method == "CONNECT"
      then connected (connect dials hijack r)
      else forwarded (forward shared round_trip r)
