-- ===== src/Socks/Relay/Half.antt =====
-- How the relay of the SOCKS5 proxy delivers and ends.
use telco_helm_charts.Common.{
  Bool, true, false, ◌≡◌, ◌≢◌, ◌⊎◌, inl, inr, refl, sym, subst, ◌∙◌, arith,
}
use telco_helm_charts.Sockets.Copy.{
  Phase, copying, closing_destination, closing_source, finished, View, Copy,
}
use telco_helm_charts.Sockets.Copy.Faithful.{
  IsFaithful, Copy-IsFaithful, stop-IsFaithful, new_flow-IsFaithful, Copy-phase,
}
use telco_helm_charts.Socks.Relay.{
  Relay, up_view, down_view, Step, upward, downward, close_write, close_client, close_upstream,
  return, Reach, here, next, new_relay,
}

-- What the handler has closed, by the phase that it is in.
abbrev pub Closed : Phase → (client upstream : Bool) → Type 0
Closed copying client upstream = (client ≡ false) × (upstream ≡ false)
Closed closing_destination client upstream = (client ≡ false) × (upstream ≡ false)
Closed closing_source client upstream = (client ≡ true) × (upstream ≡ false)
Closed finished client upstream = (client ≡ true) × (upstream ≡ true)

-- What the goroutine has closed: one direction of the connection to the web at most.
abbrev pub HalfClosed : Phase → (write_closed : Bool) → Type 0
HalfClosed finished write_closed = write_closed ≡ true
HalfClosed _ write_closed = write_closed ≡ false

-- The handler has not returned, or both copies are over.
pub data IsJoined (r : Relay) : Type 0 where
  running : r.returned ≡ false → IsJoined r
  joined : r.up.phase ≡ finished → r.down.phase ≡ finished → IsJoined r

pub record IsSound (r : Relay) : Type 0 where
  pub up : IsFaithful r.up
  pub down : IsFaithful r.down
  pub closed : Closed r.down.phase r.client r.upstream
  pub half : HalfClosed r.up.phase r.write_closed
  pub end : IsJoined r

-- A copy that is over stays so.
Copy-finished : {v w : View} → Copy v w → v.flow.phase ≡ finished → w.flow.phase ≡ finished
Copy-finished m h = elim (Copy-phase m) [ inl same ↦ same ∙ h | inr (c, stopped) ↦ ground arith ]

Copy-Closed :
    {v w : View} (client upstream : Bool)
    → Copy v w
    → Closed v.flow.phase client upstream
    → Closed w.flow.phase client upstream
Copy-Closed client upstream m h = elim (Copy-phase m) [
  | inl same ↦ subst (λ q. Closed q client upstream) (sym same) h
  | inr (c, stopped) ↦
      subst (λ q. Closed q client upstream) (sym stopped)
        (subst (λ q. Closed q client upstream) c h)
]

Copy-HalfClosed :
    {v w : View} (b : Bool) → Copy v w → HalfClosed v.flow.phase b → HalfClosed w.flow.phase b
Copy-HalfClosed b m h = elim (Copy-phase m) [
  | inl same ↦ subst (λ q. HalfClosed q b) (sym same) h
  | inr (c, stopped) ↦ subst (λ q. HalfClosed q b) (sym stopped) (subst (λ q. HalfClosed q b) c h)
]

upward-IsJoined :
    (r : Relay) {v : View} → Copy (up_view r) v → IsJoined r → IsJoined (record r { up = v.flow })
upward-IsJoined r m (running n) = running n
upward-IsJoined r m (joined u d) = joined (Copy-finished m u) d

downward-IsJoined :
    (r : Relay) {v : View}
    → Copy (down_view r) v
    → IsJoined r
    → IsJoined (record r { down = v.flow })
downward-IsJoined r m (running n) = running n
downward-IsJoined r m (joined u d) = joined u (Copy-finished m d)

-- While one of the copies is not over, the handler has not returned.
not_over :
    {r : Relay}
    → IsJoined r
    → (r.up.phase ≢ finished) ⊎ (r.down.phase ≢ finished)
    → r.returned ≡ false
not_over (running n) still = n
not_over (joined u d) (inl h) = absurd (h u)
not_over (joined u d) (inr h) = absurd (h d)

Step-IsSound : {r s : Relay} → Step r s → IsSound r → IsSound s
Step-IsSound {r} (upward m) h = record {
  up = Copy-IsFaithful m h.up;
  down = h.down;
  closed = h.closed;
  half = Copy-HalfClosed r.write_closed m h.half;
  end = upward-IsJoined r m h.end;
}
Step-IsSound {r} (downward m) h = record {
  up = h.up;
  down = Copy-IsFaithful m h.down;
  closed = Copy-Closed r.client r.upstream m h.closed;
  half = h.half;
  end = downward-IsJoined r m h.end;
}
Step-IsSound {r} (close_write p) h = record {
  up = stop-IsFaithful r.up finished (λ q. ground arith) h.up;
  down = h.down;
  closed = h.closed;
  half = refl;
  end = running (not_over h.end (inl (λ q. ground arith)));
}
Step-IsSound {r} (close_client p) h = record {
  up = h.up;
  down = stop-IsFaithful r.down closing_source (λ q. ground arith) h.down;
  closed = (refl, (subst (λ q. Closed q r.client r.upstream) p h.closed).1);
  half = h.half;
  end = running (not_over h.end (inr (λ q. ground arith)));
}
Step-IsSound {r} (close_upstream p) h = record {
  up = h.up;
  down = stop-IsFaithful r.down finished (λ q. ground arith) h.down;
  closed = ((subst (λ q. Closed q r.client r.upstream) p h.closed).0, refl);
  half = h.half;
  end = running (not_over h.end (inr (λ q. ground arith)));
}
Step-IsSound (return d u) h = record {
  up = h.up;
  down = h.down;
  closed = h.closed;
  half = h.half;
  end = joined u d;
}

-- In every state that the relay of the SOCKS5 proxy can reach, whatever the network does and however
-- the goroutine and the handler interleave: in each direction the bytes that were written are the
-- first ones that arrived, in their order, and all of them if the copy came to its end without an
-- error; the end of the browser's bytes closes the connection to the web for writing only, and both
-- connections stay open until the copy back stops; and when the handler has returned, the goroutine is
-- over, and both connections are closed.
pub Reach-IsSound : {r : Relay} → Reach new_relay r → IsSound r
Reach-IsSound here = record {
  up = new_flow-IsFaithful;
  down = new_flow-IsFaithful;
  closed = (refl, refl);
  half = refl;
  end = running refl;
}
Reach-IsSound (next r st) = Step-IsSound st (Reach-IsSound r)
