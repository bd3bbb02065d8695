-- ===== src/Tests/Forwards.antt =====
-- The two proxies on concrete requests.
use telco_helm_charts.Common.{
  ℕ, String, Bool, true, false, Option, some, [], ◌∷◌, ◌≡◌, ◌≢◌, ◌↔◌, inr, refl, if◌then◌else◌,
  ◌++◌,
}
use telco_helm_charts.Socks.{Bytes, write, dial, log, relay, close, reply, no_auth, socks}
use telco_helm_charts.Socks.Transcript.{Transcript, socks-Transcript}
use telco_helm_charts.Socks.RoundTrip.{domain, greeting, request_to, socks-request_to}
use telco_helm_charts.Proxy.{
  Transport, new_transport, Request, Response, forward, serve, healthy, health, connected,
  forwarded,
}
use telco_helm_charts.Proxy
use telco_helm_charts.Proxy.Tunnel.{IsHealthCheck, serve_iff}
use telco_helm_charts.Proxy.Headers.{Header, ascii, canonical, is_token, is_upper, is_lower, values}
use telco_helm_charts.Proxy.Headers.Hop.{is_hop, hop_keys}
use telco_helm_charts.Proxy.Headers.Copy.{IsWellFormed}
use telco_helm_charts.Proxy.Forwarding.{forward-sent, forward-answer}

abbrev reachable : Bytes → ℕ → Bool
reachable host port = true

abbrev example_host : Bytes
example_host = ascii "a.org"

socks-Transcript_example :
    Transcript reachable
      (socks reachable (greeting (0 ∷ []) ++ request_to (domain example_host) 443 []))
socks-Transcript_example =
    socks-Transcript reachable (greeting (0 ∷ []) ++ request_to (domain example_host) 443 [])

offered : no_auth (0 ∷ []) ≡ true
unfolding no_auth
offered = refl

socks-request_to_example :
    socks reachable (greeting (0 ∷ []) ++ request_to (domain example_host) 443 (1 ∷ []))
    ≡ write (5 ∷ 0 ∷ [])
      ∷ dial example_host 443 true
      ∷ write (reply 0)
      ∷ log example_host
      ∷ relay (1 ∷ [])
      ∷ close
      ∷ []
socks-request_to_example =
    socks-request_to reachable (0 ∷ []) (domain example_host) 443 (1 ∷ []) offered (inr refl)

abbrev headers : Header
headers = (ascii "Te", ascii "x" ∷ []) ∷ (ascii "Etag", ascii "y" ∷ []) ∷ []

abbrev request : String → Request
request method = record {
  method = method;
  url = record { scheme = ""; host = ""; path = "/" };
  host = "a.org";
  request_uri = "/";
  close = false;
  header = headers;
  body = [];
}

abbrev answer : Response
answer = record { status = 200; header = headers; body = 104 ∷ [] }

abbrev round_trip : Transport → Request → Option Response
round_trip transport r = some answer

forward-sent_example :
    (values (ascii "Etag") (forward new_transport round_trip (request "GET")).sent.header
      ≡ (if is_hop (ascii "Etag") hop_keys then [] else values (ascii "Etag") headers))
    × ((forward new_transport round_trip (request "GET")).sent.url.scheme ≢ "")
    × (((forward new_transport round_trip (request "GET")).sent.url.host ≡ "")
        ↔ (((request "GET").url.host ≡ "") × ((request "GET").host ≡ "")))
forward-sent_example = forward-sent new_transport round_trip (request "GET") (ascii "Etag")

headers-IsWellFormed : IsWellFormed headers
unfolding canonical values is_token is_upper is_lower
headers-IsWellFormed = (refl, refl, (refl, refl, tt))

forward-answer_example :
    ((forward new_transport round_trip (request "GET")).answer.status ≡ 200)
    × ((forward new_transport round_trip (request "GET")).answer.body ≡ 104 ∷ [])
    × (values (ascii "Te") (forward new_transport round_trip (request "GET")).answer.header
        ≡ (if is_hop (ascii "Te") hop_keys then [] else values (ascii "Te") headers))
forward-answer_example =
    forward-answer new_transport round_trip (request "GET") answer (ascii "Te") refl
      headers-IsWellFormed

abbrev dials : String → Bool
dials target = true

serve_iff_example :
    ((serve new_transport round_trip dials (some true) (request "GET") ≡ healthy health)
      ↔ IsHealthCheck (request "GET"))
    × ((serve new_transport round_trip dials (some true) (request "GET")
          ≡ connected (Proxy.connect dials (some true) (request "GET")))
        ↔ ◌≡◌ {A = String} "GET" "CONNECT")
    × ((serve new_transport round_trip dials (some true) (request "GET")
          ≡ forwarded (forward new_transport round_trip (request "GET")))
        ↔ ((◌≢◌ {A = String} "GET" "CONNECT") × (¬ IsHealthCheck (request "GET"))))
serve_iff_example = serve_iff new_transport round_trip dials (some true) (request "GET")
