-- ===== src/Exec/View.antt =====
-- What a handler leaves visible of the set-up, if the other goroutines leave it alone.
use telco_helm_charts.Common.{
  ℕ, String, Bool, List, map, length, length-map, ◌≡◌, refl, sym, subst, ap, ◌∙◌,
}
use telco_helm_charts.Dashboard.State.{Phone, Dashboard}
use telco_helm_charts.Exec.{Task, Env, State, Exec, ◌>>=◌, ask, spawn, locked, update}

-- The progress of the set-up: the phones by their id and their number, and how it ended.
pub record View : Type 0 where
  pub ready : Bool
  pub problem : String
  pub phones : List (String × String)

abbrev pub view : Dashboard → View
view d = record {
  ready = d.ready;
  problem = d.problem;
  phones = map (λ (p : Phone). (p.id, p.msisdn)) d.phones;
}

-- The other goroutines leave the progress of the set-up alone.
pub record IsSteady {World : Type 0} (env : Env World) : Type 0 where
  pub others : (d : Dashboard) (w : World) → view (env.others d w).0 ≡ view d

-- The other goroutines leave the dashboard alone.
pub record IsIdle {World : Type 0} (env : Env World) : Type 0 where
  pub alone : (d : Dashboard) (w : World) → (env.others d w).0 ≡ d

-- From a dashboard that shows `v` to one whose view has the property `Q`.
pub record Shows {World A : Type 0} (v : View) (m : Exec World A) (Q : View → Type 0) : Type 0 where
  pub shows : (s : State World) → view s.dash ≡ v → Q (view (m s).1.dash)

module _ {World : Type 0} where
  pub Shows-bind :
      {A B : Type 0} {v : View} {Q : View → Type 0} (m : Exec World A) (f : A → Exec World B)
      (R : View → Type 0)
      → Shows v m R
      → ((a : A) (u : View) → R u → Shows u (f a) Q)
      → Shows v (m >>= f) Q
  unfolding ◌>>=◌
  Shows-bind m f R hm hf = record {
    shows = λ s e. (hf (m s).0 (view (m s).1.dash) (hm.shows s e)).shows (m s).1 refl;
  }

  -- The first part leaves one view.
  pub Shows-then :
      {A B : Type 0} {v u : View} {Q : View → Type 0} (m : Exec World A) (f : A → Exec World B)
      → Shows v m (λ t. t ≡ u)
      → ((a : A) → Shows u (f a) Q)
      → Shows v (m >>= f) Q
  Shows-then {u} {Q} m f hm hf =
      Shows-bind m f (λ t. t ≡ u) hm (λ a t e. subst (λ x. Shows x (f a) Q) (sym e) (hf a))

  pub Shows-imp :
      {A : Type 0} {v : View} {P Q : View → Type 0} (m : Exec World A)
      → Shows v m P
      → ((u : View) → P u → Q u)
      → Shows v m Q
  Shows-imp m h k = record { shows = λ s e. k _ (h.shows s e) }

  pub Shows-ask : {A : Type 0} {v : View} (f : World → A × World) → Shows v (ask f) (λ u. u ≡ v)
  unfolding ask
  Shows-ask f = record { shows = λ s e. e }

  -- What follows may rely on where the answer comes from.
  pub Shows-asked :
      {A B : Type 0} {v : View} {Q : View → Type 0} (f : World → A × World) (g : A → Exec World B)
      → ((w : World) → Shows v (g (f w).0) Q)
      → Shows v (ask f >>= g) Q
  unfolding ask ◌>>=◌
  Shows-asked f g h = record {
    shows = λ s e. (h s.world).shows (record s { world = (f s.world).1 }) e;
  }

  pub Shows-spawn : {v : View} (t : Task) → Shows v (spawn {World = World} t) (λ u. u ≡ v)
  unfolding spawn
  Shows-spawn t = record { shows = λ s e. e }

  module _ {env : Env World} (steady : IsSteady env) where
    pub Shows-read :
        {A : Type 0} {v : View} (f : World → Dashboard → A)
        → Shows v (locked env (λ w d. (f w d, d))) (λ u. u ≡ v)
    unfolding locked
    Shows-read f = record { shows = λ s e. steady.others s.dash s.world ∙ e }

    -- A section that acts on the view.
    pub Shows-update :
        {v : View} (f : World → Dashboard → Dashboard) (g : View → View)
        → ((w : World) (d : Dashboard) → view (f w d) ≡ g (view d))
        → Shows v (update env f) (λ u. u ≡ g v)
    unfolding update locked
    Shows-update f g acts = record {
      shows = λ s e. acts _ _ ∙ ap g (steady.others s.dash s.world ∙ e);
    }

    -- What follows the count of the phones may rely on it.
    pub Shows-counted :
        {B : Type 0} {v : View} {Q : View → Type 0} (g : ℕ → Exec World B)
        → Shows v (g (length v.phones)) Q
        → Shows v (locked env (λ w d. (length d.phones, d)) >>= g) Q
    unfolding locked ◌>>=◌
    Shows-counted {v} {Q} g h = record {
      shows = λ s e.
          let shown = steady.others s.dash s.world ∙ e in
          let (d, w) = env.others s.dash s.world in
          let same : length d.phones ≡ length v.phones =
            sym (length-map d.phones _) ∙ ap (λ (u : View). length u.phones) shown in
          subst (λ n. Q (view (g n (record s { dash = d; world = w })).1.dash)) (sym same)
            (h.shows (record s { dash = d; world = w }) shown);
    }
