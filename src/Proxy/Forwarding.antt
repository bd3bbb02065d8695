-- ===== src/Proxy/Forwarding.antt =====
-- What the proxy sends on and what it answers.
use telco_helm_charts.Common.{
  String, Bool, true, false, Option, none, some, [], ◌≡◌, ◌≢◌, ◌↔◌, refl, ◌⊎◌, ◌∙◌, arith, eq_iff,
  if◌then◌else◌,
}
use telco_helm_charts.Proxy.{
  Transport, Request, Response, request_transport, store_of, default_to, outbound, failure, forward,
  close_if,
}
use telco_helm_charts.Proxy.Headers.{Bytes, values, remove_hop_headers}
use telco_helm_charts.Proxy.Headers.Hop.{is_hop, hop_keys, values-remove_hop_headers}
use telco_helm_charts.Proxy.Headers.Kept.{remove_hop_headers-IsWellFormed}
use telco_helm_charts.Proxy.Headers.Copy.{IsWellFormed, values-copy_headers}

abbrev pub IsUpload : String → Type 0
IsUpload method = (method ≡ "POST") ⊎ (method ≡ "PUT") ⊎ (method ≡ "PATCH")

close_if-header : (b : Bool) (q : Request) → (close_if b q).header ≡ q.header
close_if-header true q = refl
close_if-header false q = refl

close_if-url : (b : Bool) (q : Request) → (close_if b q).url ≡ q.url
close_if-url true q = refl
close_if-url false q = refl

default_to-eq_iff :
    (s fallback : String) → (default_to s fallback ≡ "") ↔ ((s ≡ "") × (fallback ≡ ""))
unfolding default_to
default_to-eq_iff s fallback = ground (arith, eq_iff s "")

default_to-ne : (s fallback : String) → fallback ≢ "" → default_to s fallback ≢ ""
default_to-ne s fallback h e = h ((default_to-eq_iff s fallback).0 e).1

http-ne : ◌≢◌ {A = String} "http" ""
http-ne = ground (arith, eq_iff "http" "")

module _ (shared : Transport) (round_trip : Transport → Request → Option Response)
    (r : Request) where
  -- The request that is sent on has the values of the client's request under every key, but none
  -- under the nine hop-by-hop headers; it names a scheme; and it lacks a host exactly if the
  -- client's request names none in its URL and none in its Host header.
  pub forward-sent :
      (key : Bytes)
      → (values key (forward shared round_trip r).sent.header
          ≡ (if is_hop key hop_keys then [] else values key r.header))
        × ((forward shared round_trip r).sent.url.scheme ≢ "")
        × (((forward shared round_trip r).sent.url.host ≡ "") ↔ ((r.url.host ≡ "") × (r.host ≡ "")))
  unfolding forward outbound
  forward-sent key =
      let dedicated = (request_transport 0 r.method (store_of shared)).0.1 in
      rw (close_if-header dedicated (outbound r), close_if-url dedicated (outbound r))
        (
          values-remove_hop_headers key r.header,
          default_to-ne r.url.scheme "http" http-ne,
          default_to-eq_iff r.url.host r.host,
        )

  -- An answer of the other side goes to the client with its status, its body, and its values under
  -- every key but the nine hop-by-hop headers, if the names in its header are canonical and stand
  -- once each.
  pub forward-answer :
      (a : Response) (key : Bytes)
      → round_trip (forward shared round_trip r).transport (forward shared round_trip r).sent
        ≡ some a
      → IsWellFormed a.header
      → ((forward shared round_trip r).answer.status ≡ a.status)
        × ((forward shared round_trip r).answer.body ≡ a.body)
        × (values key (forward shared round_trip r).answer.header
            ≡ (if is_hop key hop_keys then [] else values key a.header))
  unfolding forward values
  forward-answer a key h w = rw h (
    refl,
    refl,
    values-copy_headers key [] (remove_hop_headers a.header)
          (remove_hop_headers-IsWellFormed a.header w)
        ∙ values-remove_hop_headers key a.header,
  )

  -- Without an answer the client gets 502 with a text.
  pub forward-no_answer :
      round_trip (forward shared round_trip r).transport (forward shared round_trip r).sent ≡ none
      → (forward shared round_trip r).answer ≡ failure 502 "UE tunnel request failed"
  unfolding forward
  forward-no_answer h = rw h
