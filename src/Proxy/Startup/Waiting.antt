-- ===== src/Proxy/Startup/Waiting.antt =====
-- The proxy waits until there is an interface with an address, and takes the first one.
use telco_helm_charts.Common.{
  ℕ, zero, suc, ◌+◌, ◌≤◌, ◌<◌, String, Option, true, false, none, some, List, [], ◌∷◌, ◌++◌, All,
  ◌≡◌, ◌⊎◌, ◌≢◌, ◌∙◌, nat_eq, nat_eq_iff, refl, ap, subst, sym, arith, Bool-cases, Option-cases,
  inl, inr,
}
use telco_helm_charts.Proxy.Startup.{
  Match, is_addressed, first_addressed, wait_from, wait_for_interface,
}

-- An interface has an address, or it has none or cannot be asked.
abbrev pub HasAddress : Match → Type 0
HasAddress m = (a : String) × (rest : List String) × (m.addresses ≡ some (a ∷ rest))

abbrev pub HasNone : Match → Type 0
HasNone m = (m.addresses ≡ none) ⊎ (m.addresses ≡ some [])

is_addressed-HasAddress : (m : Match) → is_addressed m.addresses ≡ true → HasAddress m
is_addressed-HasAddress m e = addressed m.addresses refl e
  where
    addressed : (o : Option (List String)) → m.addresses ≡ o → is_addressed o ≡ true → HasAddress m
    addressed none h e = ground arith
    addressed (some []) h e = ground arith
    addressed (some (a ∷ rest)) h e = (a, rest, h)

is_addressed-HasNone : (m : Match) → is_addressed m.addresses ≡ false → HasNone m
is_addressed-HasNone m e = bare m.addresses refl e
  where
    bare : (o : Option (List String)) → m.addresses ≡ o → is_addressed o ≡ false → HasNone m
    bare none h e = inl h
    bare (some []) h e = inr h
    bare (some (a ∷ rest)) h e = ground arith

-- The first match with an address has the name.
pub record IsPicked (ms : List Match) (name : String) : Type 0 where
  pub before : List Match
  pub match : Match
  pub after : List Match
  pub order : ms ≡ before ++ match ∷ after
  pub passed : All HasNone before
  pub addressed : HasAddress match
  pub named : match.name ≡ name

first_addressed-IsPicked :
    (ms : List Match) (name : String) → first_addressed ms ≡ some name → IsPicked ms name
unfolding first_addressed
first_addressed-IsPicked [] name h = ground arith
first_addressed-IsPicked (m ∷ ms) name h = elim (Bool-cases (is_addressed m.addresses)) [
  | inl e ↦ record {
    before = [];
    match = m;
    after = ms;
    order = refl;
    passed = tt;
    addressed = is_addressed-HasAddress m e;
    named = ground arith;
  }
  | inr e ↦
      let r = first_addressed-IsPicked ms name (simp e at h) in
      record {
        before = m ∷ r.before;
        match = r.match;
        after = r.after;
        order = ap (λ l. m ∷ l) r.order;
        passed = (is_addressed-HasNone m e, r.passed);
        addressed = r.addressed;
        named = r.named;
      }
]

first_addressed-HasNone : (ms : List Match) → first_addressed ms ≡ none → All HasNone ms
unfolding first_addressed
first_addressed-HasNone [] h = tt
first_addressed-HasNone (m ∷ ms) h = elim (Bool-cases (is_addressed m.addresses)) [
  | inl e ↦ ground arith
  | inr e ↦ (is_addressed-HasNone m e, first_addressed-HasNone ms (simp e at h))
]

-- A list with an interface that has an address.
first_addressed-HasAddress :
    (before : List Match) (m : Match) (after : List Match)
    → HasAddress m
    → (name : String) × (first_addressed (before ++ m ∷ after) ≡ some name)
unfolding first_addressed
first_addressed-HasAddress [] m after (a, rest, e) = (m.name, simp e)
first_addressed-HasAddress (b ∷ before) m after h = elim (Bool-cases (is_addressed b.addresses)) [
  | inl e ↦ (b.name, simp e)
  | inr e ↦ let (name, found) = first_addressed-HasAddress before m after h in (name, simp e found)
]

module _ (polls : ℕ → List Match) where
  -- Poll `n` is the first one from `start` on that finds an interface with an address, and `name` is
  -- that of the first one that it finds.
  pub record IsFound (start n : ℕ) (name : String) : Type 0 where
    pub from : start ≤ n
    pub misses : (j : ℕ) → start ≤ j → j < n → All HasNone (polls j)
    pub picked : IsPicked (polls n) name

  here-IsFound :
      (start : ℕ) (name : String)
      → first_addressed (polls start) ≡ some name
      → IsFound start start name
  here-IsFound start name e = record {
    from = omega arith;
    misses = λ j le lt. absurd (omega arith);
    picked = first_addressed-IsPicked (polls start) name e;
  }

  later-IsFound :
      (start n : ℕ) (name : String)
      → first_addressed (polls start) ≡ none
      → IsFound (suc start) n name
      → IsFound start n name
  later-IsFound start n name e r = record {
    from = let le = r.from in omega arith;
    misses = λ j le lt. elim (Bool-cases (nat_eq j start)) [
      | inl same ↦
          subst (λ k. All HasNone (polls k)) (sym ((nat_eq_iff j start).0 same))
            (first_addressed-HasNone (polls start) e)
      | inr other ↦ r.misses j (ground arith) lt
    ];
    picked = r.picked;
  }

  wait_from-skip :
      (count start : ℕ)
      → first_addressed (polls start) ≡ none
      → wait_from polls (suc count) start ≡ wait_from polls count (suc start)
  unfolding wait_from
  wait_from-skip count start e = rw (wait_from, e)

  wait_from-IsFound :
      (count start n : ℕ) (name : String)
      → start ≤ n
      → n < start + count
      → first_addressed (polls n) ≡ some name
      → (m : ℕ) × (found : String) × (m ≤ n)
        × IsFound start m found
        × (wait_from polls count start ≡ some found)
  unfolding wait_from
  wait_from-IsFound zero start n name le lt h = absurd (omega arith)
  wait_from-IsFound (suc count) start n name le lt h =
      elim (Option-cases (first_addressed (polls start))) [
        | inr (found, e) ↦ (start, found, le, here-IsFound start found e, rw (wait_from, e))
        | inl e ↦
            let passed : start ≢ n = λ same.
              none-ne (sym e ∙ subst (λ k. first_addressed (polls k) ≡ some name) (sym same) h) in
            let (m, found, before, r, waited) =
              wait_from-IsFound count (suc start) n name (omega arith) (omega arith) h in
            (
              m,
              found,
              before,
              later-IsFound start m found e r,
              wait_from-skip count start e ∙ waited,
            )
      ]
    where
      none-ne : (none ≡ some name) → ⊥
      none-ne x = cc

  -- The wait ends: if poll `n` finds an interface with an address, then the proxy goes on, within
  -- `n + 1` polls, with an interface that is the first one with an address of its poll, and no
  -- poll before has found one with an address.
  pub wait_for_interface-IsFound :
      (n : ℕ) (before : List Match) (m : Match) (after : List Match)
      → polls n ≡ before ++ m ∷ after
      → HasAddress m
      → (k : ℕ) × (found : String) × (k ≤ n)
        × IsFound 0 k found
        × (wait_for_interface polls (suc n) ≡ some found)
  unfolding wait_for_interface
  wait_for_interface-IsFound n before m after order addressed =
      let (name, h) = first_addressed-HasAddress before m after addressed in
      wait_from-IsFound (suc n) 0 n name (omega arith) (omega arith)
        (subst (λ l. first_addressed l ≡ some name) (sym order) h)
