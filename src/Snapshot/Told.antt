-- ===== src/Snapshot/Told.antt =====
-- What `state` of server.go tells of the phones, as `trackDelivery` of phone_gnb.go decodes it.
use telco_helm_charts.Common.{
  ℕ, suc, some, List, [], ◌∷◌, ◌++◌, map, length, length-append, get_elem?, ◌≡◌, refl, sym, subst,
  ap, ◌∙◌, arith,
}
use mathlib.Core.List.{append_assoc}
use telco_helm_charts.Mode.{Environment}
use telco_helm_charts.Dashboard.State.{Phone, Dashboard}
use telco_helm_charts.Exec.{Peer, Env, State, pure, ◌>>=◌, observe, locked}
use telco_helm_charts.Exec.View.{IsIdle}
use telco_helm_charts.Snapshot.{PhoneInfo, Reading, info_of, info_at, infos, state}

-- A phone as `trackDelivery` decodes it.
abbrev pub decode : PhoneInfo → Peer
decode i = record { number = i.number; messages = i.messages }

abbrev pub peer_of : Phone → Peer
peer_of p = record { number = p.msisdn; messages = p.messages }

get_elem?-middle {ℓ} :
    {A : Type ℓ} (before rest : List A) (x : A)
    → get_elem? (before ++ x ∷ rest) (length before) ≡ some x
get_elem?-middle [] rest x = refl
get_elem?-middle (b ∷ before) rest x = get_elem?-middle before rest x

module _ {World : Type 0} {env : Env World} (idle : IsIdle env) (reading : Reading World)
    (getenv : Environment) where
  -- A section that reads.
  read-dash :
      {A : Type 0} (f : World → Dashboard → A) (s : State World)
      → (locked env (λ w d. (f w d, d)) s).1.dash ≡ s.dash
  unfolding locked
  read-dash f s = idle.alone s.dash s.world

  -- The loop tells each phone, with its number and its messages.
  info_at-there :
      (i : ℕ) (w : World) (d : Dashboard) {p : Phone}
      → get_elem? d.phones i ≡ some p
      → info_at env reading getenv i w d ≡ info_of env reading getenv i w p ∷ []
  info_at-there i w d there = rw (info_at, there) refl

  infos-decode :
      (i : ℕ) (before rest : List Phone) (s : State World)
      → length before ≡ i
      → s.dash.phones ≡ before ++ rest
      → map decode (infos env reading getenv i (length rest) s).0 ≡ map peer_of rest
  unfolding infos info_of pure locked ◌>>=◌
  infos-decode i before [] s index same = refl
  infos-decode i before (p ∷ rest) s index same =
      let (d, w) = env.others s.dash s.world in
      let kept : d.phones ≡ before ++ p ∷ rest =
        ap (λ (e : Dashboard). e.phones) (idle.alone s.dash s.world) ∙ same in
      let here : get_elem? d.phones i ≡ some p =
        ap (λ l. get_elem? l i) kept
        ∙ subst (λ j. get_elem? (before ++ p ∷ rest) j ≡ some p) index
            (get_elem?-middle before rest p) in
      let after = record s { dash = d; world = w } in
      let others = infos env reading getenv (suc i) (length rest) after in
      ap (λ h. map decode (h ++ others.0)) (info_at-there i w d here)
      ∙ ap (λ l. peer_of p ∷ l)
          (infos-decode (suc i) (before ++ p ∷ []) rest after
            (omega (arith, index, length-append before (p ∷ [])))
            (kept ∙ sym (append_assoc before (p ∷ []) rest)))

  -- What the state tells of the phones.
  pub state-decode :
      (s : State World)
      → map decode (state env reading getenv s).0.phones ≡ map peer_of s.dash.phones
  unfolding state observe pure ◌>>=◌ locked
  state-decode s =
      let (d, w) = env.others s.dash s.world in
      infos-decode 0 [] d.phones (record s { dash = d; world = w }) refl refl
      ∙ ap (λ (e : Dashboard). map peer_of e.phones) (idle.alone s.dash s.world)
