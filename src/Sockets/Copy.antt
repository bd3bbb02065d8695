-- ===== src/Sockets/Copy.antt =====
-- `io.Copy` from one connection to another, and what the network does to them meanwhile: what is read is
-- written in order, until the end or an error.
pub mod Faithful
use telco_helm_charts.Common.{Bool, true, false, List, [], ◌++◌, ◌≡◌}
use telco_helm_charts.Proxy.Headers.{Bytes}

-- Where a goroutine stands that copies, and then closes the two connections.
pub data Phase : Type 0 where
  copying closing_destination closing_source finished : Phase

-- A direction: the bytes that arrived at the source, those that were written to the destination, what
-- was read and not yet written, and what was not yet read; whether the source's peer has ended, and
-- whether the copy came to that end.
pub record Flow : Type 0 where
  pub arrived : Bytes
  pub written : Bytes
  pub buffer : Bytes
  pub unread : Bytes
  pub ended : Bool
  pub complete : Bool
  pub phase : Phase

-- What one goroutine sees: its direction, and whether the connections are closed.
pub record View : Type 0 where
  pub flow : Flow
  pub destination : Bool
  pub source : Bool

abbrev pub with_phase : Phase → View → View
with_phase p v = record v { flow = record v.flow { phase = p } }

pub data Copy (v : View) : View → Type 0 where
  arrive :
      (bs : Bytes)
      → v.flow.ended ≡ false
      → Copy v (record v {
        flow = record v.flow { arrived = v.flow.arrived ++ bs; unread = v.flow.unread ++ bs };
      })
  peer_ends : Copy v (record v { flow = record v.flow { ended = true } })
  read :
      (bs rest : Bytes)
      → v.flow.phase ≡ copying
      → v.flow.buffer ≡ []
      → v.flow.unread ≡ bs ++ rest
      → Copy v (record v { flow = record v.flow { buffer = bs; unread = rest } })
  write :
      (bs rest : Bytes)
      → v.flow.phase ≡ copying
      → v.destination ≡ false
      → v.flow.buffer ≡ bs ++ rest
      → Copy v (record v { flow = record v.flow { written = v.flow.written ++ bs; buffer = rest } })
  -- `io.Copy` ends without an error.
  reach_end :
      v.flow.phase ≡ copying
      → v.flow.ended ≡ true
      → v.flow.buffer ≡ []
      → v.flow.unread ≡ []
      → Copy v (record v { flow = record v.flow { complete = true; phase = closing_destination } })
  -- It ends with one.
  break_off : v.flow.phase ≡ copying → Copy v (with_phase closing_destination v)

abbrev pub new_flow : Flow
new_flow = record {
  arrived = [];
  written = [];
  buffer = [];
  unread = [];
  ended = false;
  complete = false;
  phase = copying;
}
