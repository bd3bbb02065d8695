-- ===== src/Proxy/Relay.antt =====
-- images/5g-ue-http-proxy/main.go: the two goroutines `transfer` of a tunnel by the side of each
-- other.
pub mod Delivery
use telco_helm_charts.Common.{Bool, true, false, ◌≡◌}
use telco_helm_charts.Sockets.Copy.{
  closing_destination, closing_source, finished, Flow, View, with_phase, Copy, new_flow,
}

-- A step of one goroutine: of its copy, or of what comes after it.
pub data Move (v : View) : View → Type 0 where
  copies : {w : View} → Copy v w → Move v w
  close_destination :
      v.flow.phase ≡ closing_destination
      → Move v (record (with_phase closing_source v) { destination = true })
  close_source :
      v.flow.phase ≡ closing_source → Move v (record (with_phase finished v) { source = true })

-- The connections `client` and `upstream`, closed or not, and both directions.
pub record Relay : Type 0 where
  pub up : Flow
  pub down : Flow
  pub client : Bool
  pub upstream : Bool

abbrev pub up_view : Relay → View
up_view r = record { flow = r.up; destination = r.upstream; source = r.client }

abbrev pub down_view : Relay → View
down_view r = record { flow = r.down; destination = r.client; source = r.upstream }

-- `go transfer(upstream, client)` and `go transfer(client, upstream)`
pub data Step (r : Relay) : Relay → Type 0 where
  upward :
      {v : View}
      → Move (up_view r) v
      → Step r (record r { up = v.flow; upstream = v.destination; client = v.source })
  downward :
      {v : View}
      → Move (down_view r) v
      → Step r (record r { down = v.flow; client = v.destination; upstream = v.source })

pub data Reach (r : Relay) : Relay → Type 0 where
  here : Reach r r
  next : {s t : Relay} → Reach r s → Step s t → Reach r t

-- When `connect` starts the goroutines.
abbrev pub new_relay : Relay
new_relay = record { up = new_flow; down = new_flow; client = false; upstream = false }
