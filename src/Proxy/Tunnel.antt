-- ===== src/Proxy/Tunnel.antt =====
-- The CONNECT requests of the proxy, and which requests go where.
use Prim.Native.String.append as append_clauses
use telco_helm_charts.Common.{
  String, Bool, true, false, Option, none, some, List, [], ◌∷◌, ◌≡◌, ◌≢◌, ◌↔◌, arith, eq_iff,
}
use telco_helm_charts.Proxy.{
  Transport, Request, Response, Effect, dial, close_upstream, fail, established, tunnel, connect,
  healthy, connected, forwarded, health, forward, serve,
}

-- The courses of a CONNECT request to a target. A connection that was dialled is closed again, or it
-- is handed to the tunnel.
pub data Tunnelled (dials : String → Bool) (hijack : Option Bool) (target : String)
    : List Effect → Type 0 where
  unreachable :
      dials target ≡ false
      → Tunnelled dials hijack target (dial target ∷ fail 502 "UE tunnel connection failed" ∷ [])
  unsupported :
      dials target ≡ true
      → hijack ≡ none
      → Tunnelled dials hijack target
          (dial target ∷ close_upstream ∷ fail 500 "connection hijacking unsupported" ∷ [])
  lost :
      dials target ≡ true
      → hijack ≡ some false
      → Tunnelled dials hijack target (dial target ∷ close_upstream ∷ [])
  opened :
      dials target ≡ true
      → hijack ≡ some true
      → Tunnelled dials hijack target (dial target ∷ established ∷ tunnel ∷ [])

-- A health check of the proxy itself.
abbrev pub IsHealthCheck : Request → Type 0
IsHealthCheck r = (r.method ≢ "CONNECT") × (r.url.path ≡ "/healthz") × (r.url.host ≡ "")

-- Of all requests the proxy answers exactly the health checks itself, opens a tunnel for exactly the
-- CONNECT requests, and forwards exactly the others.
pub serve_iff :
    (shared : Transport) (round_trip : Transport → Request → Option Response)
    (dials : String → Bool) (hijack : Option Bool) (r : Request)
    → ((serve shared round_trip dials hijack r ≡ healthy health) ↔ IsHealthCheck r)
      × ((serve shared round_trip dials hijack r ≡ connected (connect dials hijack r))
          ↔ (r.method ≡ "CONNECT"))
      × ((serve shared round_trip dials hijack r ≡ forwarded (forward shared round_trip r))
          ↔ ((r.method ≢ "CONNECT") × (¬ IsHealthCheck r)))
unfolding serve
serve_iff shared round_trip dials hijack r =
    ground (arith, eq_iff r.method "CONNECT", eq_iff r.url.path "/healthz", eq_iff r.url.host "")
