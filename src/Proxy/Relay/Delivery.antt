-- ===== src/Proxy/Relay/Delivery.antt =====
-- What a tunnel delivers, and when its connections are closed.
use telco_helm_charts.Common.{Bool, true, false, ◌≡◌, ◌≢◌, ◌⊎◌, inl, inr, refl, subst, ◌∙◌, arith}
use telco_helm_charts.Sockets.Copy.{
  Phase, copying, closing_destination, closing_source, finished, View,
}
use telco_helm_charts.Sockets.Copy.Faithful.{
  IsFaithful, Copy-IsFaithful, stop-IsFaithful, new_flow-IsFaithful, Copy-keeps, Copy-phase,
  Copy-stopped,
}
use telco_helm_charts.Proxy.Relay.{
  Move, copies, close_destination, close_source, Relay, up_view, down_view, Step, upward, downward,
  Reach, here, next, new_relay,
}

-- What a goroutine has closed by the phase that it is in.
abbrev pub HasClosed : Phase → (destination source : Bool) → Type 0
HasClosed copying destination source = Unit
HasClosed closing_destination destination source = Unit
HasClosed closing_source destination source = destination ≡ true
HasClosed finished destination source = (destination ≡ true) × (source ≡ true)

Move-HasClosed :
    {v w : View}
    → Move v w
    → HasClosed v.flow.phase v.destination v.source
    → HasClosed w.flow.phase w.destination w.source
Move-HasClosed {v} {w} (copies m) h = elim (Copy-phase m) [
  | inl same ↦ rw (same, (Copy-keeps m).0, (Copy-keeps m).1) h
  | inr (c, stopped) ↦ rw stopped tt
]
Move-HasClosed (close_destination p) h = refl
Move-HasClosed {v} (close_source p) h = (subst (λ q. HasClosed q v.destination v.source) p h, refl)

-- No step opens a connection again, and none but those after the copy close one.
Move-closes :
    {v w : View}
    → Move v w
    → (v.destination ≡ true → w.destination ≡ true) × (v.source ≡ true → w.source ≡ true)
Move-closes (copies m) = ((λ h. (Copy-keeps m).0 ∙ h), λ h. (Copy-keeps m).1 ∙ h)
Move-closes (close_destination p) = ((λ h. refl), λ h. h)
Move-closes (close_source p) = ((λ h. h), λ h. refl)

Move-keeps :
    {v w : View}
    → Move v w
    → ((w.destination ≡ v.destination) × (w.source ≡ v.source)) ⊎ (w.flow.phase ≢ copying)
Move-keeps (copies m) = inl (Copy-keeps m)
Move-keeps (close_destination p) = inr (λ q. ground arith)
Move-keeps (close_source p) = inr (λ q. ground arith)

Move-stopped : {v w : View} → Move v w → v.flow.phase ≢ copying → w.flow.phase ≢ copying
Move-stopped (copies m) h = Copy-stopped m h
Move-stopped (close_destination p) h = λ q. ground arith
Move-stopped (close_source p) h = λ q. ground arith

HasClosed-mono :
    (p : Phase) {d e s t : Bool}
    → (d ≡ true → e ≡ true)
    → (s ≡ true → t ≡ true)
    → HasClosed p d s
    → HasClosed p e t
HasClosed-mono copying f g h = tt
HasClosed-mono closing_destination f g h = tt
HasClosed-mono closing_source f g h = f h
HasClosed-mono finished f g h = (f h.0, g h.1)

-- The connections are open until a copy stops.
pub data IsOpen (r : Relay) : Type 0 where
  both_open : r.client ≡ false → r.upstream ≡ false → IsOpen r
  up_stopped : r.up.phase ≢ copying → IsOpen r
  down_stopped : r.down.phase ≢ copying → IsOpen r

-- Both directions are faithful, each goroutine has closed what its phase says, and no connection is
-- closed while both copy.
pub record IsSound (r : Relay) : Type 0 where
  pub up : IsFaithful r.up
  pub down : IsFaithful r.down
  pub up_closed : HasClosed r.up.phase r.upstream r.client
  pub down_closed : HasClosed r.down.phase r.client r.upstream
  pub opened : IsOpen r

Move-IsFaithful : {v w : View} → Move v w → IsFaithful v.flow → IsFaithful w.flow
Move-IsFaithful (copies m) h = Copy-IsFaithful m h
Move-IsFaithful {v} (close_destination p) h =
    stop-IsFaithful v.flow closing_source (λ q. ground arith) h
Move-IsFaithful {v} (close_source p) h = stop-IsFaithful v.flow finished (λ q. ground arith) h

upward-IsOpen :
    (r : Relay) {v : View}
    → Move (up_view r) v
    → IsOpen r
    → IsOpen (record r { up = v.flow; upstream = v.destination; client = v.source })
upward-IsOpen r m (both_open c u) = elim (Move-keeps m) [
  | inl (d, s) ↦ both_open (s ∙ c) (d ∙ u)
  | inr stopped ↦ up_stopped stopped
]
upward-IsOpen r m (up_stopped h) = up_stopped (Move-stopped m h)
upward-IsOpen r m (down_stopped h) = down_stopped h

downward-IsOpen :
    (r : Relay) {v : View}
    → Move (down_view r) v
    → IsOpen r
    → IsOpen (record r { down = v.flow; client = v.destination; upstream = v.source })
downward-IsOpen r m (both_open c u) = elim (Move-keeps m) [
  | inl (d, s) ↦ both_open (d ∙ c) (s ∙ u)
  | inr stopped ↦ down_stopped stopped
]
downward-IsOpen r m (up_stopped h) = up_stopped h
downward-IsOpen r m (down_stopped h) = down_stopped (Move-stopped m h)

Step-IsSound : {r s : Relay} → Step r s → IsSound r → IsSound s
Step-IsSound {r} (upward m) h = record {
  up = Move-IsFaithful m h.up;
  down = h.down;
  up_closed = Move-HasClosed m h.up_closed;
  down_closed = HasClosed-mono r.down.phase (Move-closes m).1 (Move-closes m).0 h.down_closed;
  opened = upward-IsOpen r m h.opened;
}
Step-IsSound {r} (downward m) h = record {
  up = h.up;
  down = Move-IsFaithful m h.down;
  up_closed = HasClosed-mono r.up.phase (Move-closes m).1 (Move-closes m).0 h.up_closed;
  down_closed = Move-HasClosed m h.down_closed;
  opened = downward-IsOpen r m h.opened;
}

new_relay-IsSound : IsSound new_relay
new_relay-IsSound = record {
  up = new_flow-IsFaithful;
  down = new_flow-IsFaithful;
  up_closed = tt;
  down_closed = tt;
  opened = both_open refl refl;
}

-- In every state that the two goroutines of a tunnel can reach, whatever the network does and
-- however they interleave: in each direction the bytes that were written are the first ones that
-- arrived, in their order, and all of them if the copy came to its end without an error; a goroutine
-- that is done with a connection has closed it, so that both connections are closed when one of the
-- goroutines is finished; and none is closed while both still copy.
pub relay-IsSound : {r : Relay} → Reach new_relay r → IsSound r
relay-IsSound here = new_relay-IsSound
relay-IsSound (next r st) = Step-IsSound st (relay-IsSound r)
