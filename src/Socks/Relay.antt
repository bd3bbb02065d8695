-- ===== src/Socks/Relay.antt =====
-- The end of `socks` of browser.go: the goroutine that copies from the browser to the web, and the
-- handler itself, which copies back, by the side of each other. It is assumed that the connection to
-- the web is a `*net.TCPConn`, as the dialer for tcp4 gives one.
pub mod Half
use telco_helm_charts.Common.{Bool, true, false, ◌||◌, ◌≡◌}
use telco_helm_charts.Sockets.Copy.{
  closing_destination, closing_source, finished, Flow, View, Copy, new_flow,
}

-- The directions to the web and back; whether the connections are closed, whether `CloseWrite` was
-- called, and whether the handler has returned.
pub record Relay : Type 0 where
  pub up : Flow
  pub down : Flow
  pub client : Bool
  pub upstream : Bool
  pub write_closed : Bool
  pub returned : Bool

abbrev pub up_view : Relay → View
up_view r = record { flow = r.up; destination = r.write_closed || r.upstream; source = r.client }

abbrev pub down_view : Relay → View
down_view r = record { flow = r.down; destination = r.client; source = r.upstream }

pub data Step (r : Relay) : Relay → Type 0 where
  upward : {v : View} → Copy (up_view r) v → Step r (record r { up = v.flow })
  downward : {v : View} → Copy (down_view r) v → Step r (record r { down = v.flow })
  -- `t.CloseWrite()`, and `close(done)`
  close_write :
      r.up.phase ≡ closing_destination
      → Step r (record r { up = record r.up { phase = finished }; write_closed = true })
  close_client :
      r.down.phase ≡ closing_destination
      → Step r (record r { down = record r.down { phase = closing_source }; client = true })
  close_upstream :
      r.down.phase ≡ closing_source
      → Step r (record r { down = record r.down { phase = finished }; upstream = true })
  -- `<-done`
  return : r.down.phase ≡ finished → r.up.phase ≡ finished → Step r (record r { returned = true })

pub data Reach (r : Relay) : Relay → Type 0 where
  here : Reach r r
  next : {s t : Relay} → Reach r s → Step s t → Reach r t

abbrev pub new_relay : Relay
new_relay = record {
  up = new_flow;
  down = new_flow;
  client = false;
  upstream = false;
  write_closed = false;
  returned = false;
}
