-- ===== src/Sockets/Copy/Faithful.antt =====
-- What holds of a direction whatever the network does.
use telco_helm_charts.Common.{[], ◌++◌, ◌≡◌, ◌≢◌, ◌⊎◌, true, false, inl, inr, refl, sym, ◌∙◌, arith}
use mathlib.Core.List.{append_assoc}
use telco_helm_charts.Sockets.Copy.{
  Phase, copying, closing_destination, Flow, View, Copy, arrive, peer_ends, read, write, reach_end,
  break_off, new_flow,
}

-- A copy that came to its end has nothing left; others are not complete.
pub data IsAtEnd (f : Flow) : Type 0 where
  incomplete : f.complete ≡ false → IsAtEnd f
  at_end : f.ended ≡ true → f.buffer ≡ [] → f.unread ≡ [] → f.phase ≢ copying → IsAtEnd f

-- What was written is the first part of what arrived, and all of it if the copy came to its end.
pub record IsFaithful (f : Flow) : Type 0 where
  pub order : f.arrived ≡ f.written ++ (f.buffer ++ f.unread)
  pub end : IsAtEnd f

-- A step of the copy needs a phase, so a copy that came to its end takes none.
no_step : {A : Type 0} (f : Flow) → f.phase ≡ copying → IsAtEnd f → (f.complete ≡ false → A) → A
no_step f p (incomplete c) a = a c
no_step f p (at_end e b u k) a = ground arith

Copy-order :
    {v w : View}
    → Copy v w
    → IsFaithful v.flow
    → w.flow.arrived ≡ w.flow.written ++ (w.flow.buffer ++ w.flow.unread)
Copy-order {v} (arrive bs e) h = simp (h.order, append_assoc)
Copy-order peer_ends h = h.order
Copy-order {v} (read bs rest p e u) h = simp (h.order, e, u)
Copy-order {v} (write bs rest p o e) h = simp (h.order, e, append_assoc)
Copy-order (reach_end p e b u) h = h.order
Copy-order (break_off p) h = h.order

Copy-IsAtEnd : {v w : View} → Copy v w → IsAtEnd v.flow → IsAtEnd w.flow
Copy-IsAtEnd (arrive bs e) (incomplete c) = incomplete c
Copy-IsAtEnd (arrive bs e) (at_end t b u k) = ground arith
Copy-IsAtEnd peer_ends (incomplete c) = incomplete c
Copy-IsAtEnd peer_ends (at_end t b u k) = at_end refl b u k
Copy-IsAtEnd {v} (read bs rest p e u) h = no_step v.flow p h (λ c. incomplete c)
Copy-IsAtEnd {v} (write bs rest p o e) h = no_step v.flow p h (λ c. incomplete c)
Copy-IsAtEnd (reach_end p e b u) h = at_end e b u (λ k. ground arith)
Copy-IsAtEnd {v} (break_off p) h = no_step v.flow p h (λ c. incomplete c)

pub Copy-IsFaithful : {v w : View} → Copy v w → IsFaithful v.flow → IsFaithful w.flow
Copy-IsFaithful m h = record { order = Copy-order m h; end = Copy-IsAtEnd m h.end }

-- After the copy, what was copied stays as it is.
pub stop-IsFaithful :
    (f : Flow) (p : Phase) → p ≢ copying → IsFaithful f → IsFaithful (record f { phase = p })
stop-IsFaithful f p stopped h = record { order = h.order; end = still h.end }
  where
    still : IsAtEnd f → IsAtEnd (record f { phase = p })
    still (incomplete c) = incomplete c
    still (at_end t b u k) = at_end t b u stopped

pub new_flow-IsFaithful : IsFaithful new_flow
new_flow-IsFaithful = record { order = refl; end = incomplete refl }

-- The copy closes nothing.
pub Copy-keeps : {v w : View} → Copy v w → (w.destination ≡ v.destination) × (w.source ≡ v.source)
Copy-keeps (arrive bs e) = (refl, refl)
Copy-keeps peer_ends = (refl, refl)
Copy-keeps (read bs rest p e u) = (refl, refl)
Copy-keeps (write bs rest p o e) = (refl, refl)
Copy-keeps (reach_end p e b u) = (refl, refl)
Copy-keeps (break_off p) = (refl, refl)

-- It goes on, or it stops.
pub Copy-phase :
    {v w : View}
    → Copy v w
    → (w.flow.phase ≡ v.flow.phase)
      ⊎ ((v.flow.phase ≡ copying) × (w.flow.phase ≡ closing_destination))
Copy-phase (arrive bs e) = inl refl
Copy-phase peer_ends = inl refl
Copy-phase (read bs rest p e u) = inl refl
Copy-phase (write bs rest p o e) = inl refl
Copy-phase (reach_end p e b u) = inr (p, refl)
Copy-phase (break_off p) = inr (p, refl)

pub Copy-stopped : {v w : View} → Copy v w → v.flow.phase ≢ copying → w.flow.phase ≢ copying
Copy-stopped m h = elim (Copy-phase m) [
  | inl same ↦ λ q. h (sym same ∙ q)
  | inr (c, stopped) ↦ λ q. ground arith
]
