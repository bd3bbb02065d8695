-- ===== src/Media/Sending.antt =====
-- The packets that a goroutine hands to the radio, as a log of the world tells them.
use telco_helm_charts.Common.{
  ℕ, Bool, true, false, List, [], ◌∷◌, ◌++◌, ◌≡◌, refl, sym, ap, ◌∙◌, if◌then◌else◌,
}
use mathlib.Core.List.{append-nil, append_assoc}
use telco_helm_charts.Dashboard.State.{Dashboard}
use telco_helm_charts.Exec.{Env, State, Exec, pure, ◌>>=◌, observe, ask, locked, update}
use telco_helm_charts.Media.{Stream, Voice}

-- The log grows by each packet that is sent, whether or not the radio has an error, and by nothing
-- else that the goroutine asks for or waits for.
pub record IsLogged {World : Type 0} (env : Env World) (voice : Voice World)
    (log : World → List (List ℕ)) : Type 0 where
  pub others : (d : Dashboard) (w : World) → log (env.others d w).1 ≡ log w
  pub pass : (w : World) → log (env.pass w) ≡ log w
  pub wake : (c : ℕ) (w : World) → log (voice.wake c w).1 ≡ log w
  pub send :
      (i qfi : ℕ) (stream : Stream) (bytes : List ℕ) (w : World)
      → log (voice.send i qfi stream bytes w).1 ≡ log w ++ bytes ∷ []

module _ {World : Type 0} (log : World → List (List ℕ)) where
  -- What a run gives with the packets that it hands over, from any state.
  pub record Sends {A : Type 0} (m : Exec World A) (Q : A → List (List ℕ) → Type 0) : Type 0 where
    pub sends :
        (s : State World)
        → (ps : List (List ℕ)) × (log (m s).1.world ≡ log s.world ++ ps) × Q (m s).0 ps

  pub Sends-pure :
      {A : Type 0} {Q : A → List (List ℕ) → Type 0} (a : A)
      → Q a []
      → Sends (pure {World = World} a) Q
  unfolding pure
  Sends-pure a h = record { sends = λ s. ([], sym (append-nil (log s.world)), h) }

  pub Sends-then :
      {A B : Type 0} {P : A → List (List ℕ) → Type 0} {Q : B → List (List ℕ) → Type 0}
      (m : Exec World A) (f : A → Exec World B)
      → Sends m P
      → ((a : A) (ps : List (List ℕ)) → P a ps → Sends (f a) (λ b qs. Q b (ps ++ qs)))
      → Sends (m >>= f) Q
  unfolding ◌>>=◌
  Sends-then m f k h = record {
    sends = λ s.
        let (ps, one, p) = k.sends s in
        let (qs, two, q) = (h (m s).0 ps p).sends (m s).1 in
        (ps ++ qs, two ∙ ap (λ l. l ++ qs) one ∙ append_assoc (log s.world) ps qs, q);
  }

  pub Sends-imp :
      {A : Type 0} {P Q : A → List (List ℕ) → Type 0} (m : Exec World A)
      → ((a : A) (ps : List (List ℕ)) → P a ps → Q a ps)
      → Sends m P
      → Sends m Q
  Sends-imp m k h = record { sends = λ s. let (ps, e, p) = h.sends s in (ps, e, k _ ps p) }

  -- A part that hands nothing over.
  pub Sends-quiet :
      {A B : Type 0} {Q : B → List (List ℕ) → Type 0} (m : Exec World A) (f : A → Exec World B)
      → ((s : State World) → log (m s).1.world ≡ log s.world)
      → ((a : A) → Sends (f a) Q)
      → Sends (m >>= f) Q
  unfolding ◌>>=◌
  Sends-quiet m f k h = record {
    sends = λ s. let (ps, e, q) = (h (m s).0).sends (m s).1 in (ps, e ∙ ap (λ l. l ++ ps) (k s), q);
  }

  -- A part that hands one packet over.
  pub Sends-one :
      {A B : Type 0} {Q : B → List (List ℕ) → Type 0} (p : List ℕ) (m : Exec World A)
      (f : A → Exec World B)
      → ((s : State World) → log (m s).1.world ≡ log s.world ++ p ∷ [])
      → ((a : A) → Sends (f a) (λ b ps. Q b (p ∷ ps)))
      → Sends (m >>= f) Q
  Sends-one p m f k h =
      Sends-then {P = λ a ps. ps ≡ p ∷ []} m f (record { sends = λ s. (p ∷ [], k s, refl) })
        (λ a ps e. rw e (h a))

  pub Sends-if :
      {A : Type 0} {Q : A → List (List ℕ) → Type 0} (b : Bool) (m n : Exec World A)
      → Sends m Q
      → Sends n Q
      → Sends (if b then m else n) Q
  Sends-if true m n h k = h
  Sends-if false m n h k = k

  module _ {env : Env World} {voice : Voice World} (logged : IsLogged env voice log) where
    pub update-quiet :
        (f : World → Dashboard → Dashboard) (s : State World)
        → log (update env f s).1.world ≡ log s.world
    unfolding update locked
    update-quiet f s = logged.others s.dash s.world

    pub observe-quiet :
        {A : Type 0} (f : World → A) (s : State World) → log (observe env f s).1.world ≡ log s.world
    unfolding observe
    observe-quiet f s = logged.pass s.world

    pub wake-quiet : (c : ℕ) (s : State World) → log (ask (voice.wake c) s).1.world ≡ log s.world
    unfolding ask
    wake-quiet c s = logged.wake c s.world

    pub send-logged :
        (i qfi : ℕ) (stream : Stream) (bytes : List ℕ) (s : State World)
        → log (ask (voice.send i qfi stream bytes) s).1.world ≡ log s.world ++ bytes ∷ []
    unfolding ask
    send-logged i qfi stream bytes s = logged.send i qfi stream bytes s.world
