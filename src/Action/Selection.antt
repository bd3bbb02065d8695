-- ===== src/Action/Selection.antt =====
-- Which phone a request operates.
use telco_helm_charts.Common.{
  ℕ, suc, ◌+◌, String, true, false, Option, none, some, List, [], ◌∷◌, ◌++◌, ◌≡◌, ◌≢◌, ◌⊎◌, inl,
  inr, refl, length, ap, Bool-cases, ◌==◌, arith, eq_iff, All, if◌then◌else◌, ◌∙◌,
}
use telco_helm_charts.Dashboard.State.{Phone, Dashboard}
use telco_helm_charts.Action.{find_phone, select}

-- The phone at an index is the last one with an id.
pub record IsLast (id : String) (ps : List Phone) (i : ℕ) : Type 0 where
  pub before : List Phone
  pub phone : Phone
  pub after : List Phone
  pub order : ps ≡ before ++ phone ∷ after
  pub index : i ≡ length before
  pub named : phone.id ≡ id
  pub others : All (λ q. q.id ≢ id) after

find_phone_lem :
    (id : String) (k : ℕ) (ps : List Phone) (found : Option ℕ)
    → ((find_phone id k ps found ≡ found) × All (λ q. q.id ≢ id) ps)
      ⊎ ((i : ℕ) × (find_phone id k ps found ≡ some (k + i)) × IsLast id ps i)
unfolding find_phone
find_phone_lem id k [] found = inl (refl, tt)
find_phone_lem id k (p ∷ ps) found =
    elim (find_phone_lem id (suc k) ps (if p.id == id then some k else found)) [
      | inr (i, e, last) ↦ inr (
        suc i,
        e ∙ ap some (omega arith),
        record {
          before = p ∷ last.before;
          phone = last.phone;
          after = last.after;
          order = ap (λ l. p ∷ l) last.order;
          index = ap suc last.index;
          named = last.named;
          others = last.others;
        },
      )
      | inl (e, absent) ↦ elim (Bool-cases (p.id == id)) [
        | inl same ↦ inr (
          0,
          e ∙ rw same (ap some (omega arith)),
          record {
            before = [];
            phone = p;
            after = ps;
            order = refl;
            index = refl;
            named = (eq_iff p.id id).0 same;
            others = absent;
          },
        )
        | inr other ↦ inl (e ∙ rw other, (ground (arith, eq_iff p.id id), absent))
      ]
    ]

-- A request finds no phone if the dashboard is not ready or if no phone has the id; otherwise it
-- finds the last phone with the id.
select_lem :
    (id : String) (d : Dashboard)
    → ((select id d ≡ none) × ((d.ready ≡ false) ⊎ All (λ q. q.id ≢ id) d.phones))
      ⊎ ((i : ℕ) × (select id d ≡ some i) × (d.ready ≡ true) × IsLast id d.phones i)
unfolding select
select_lem id d = elim (Bool-cases d.ready) [
  | inr e ↦ rw e (inl (refl, inl refl))
  | inl e ↦ rw e (elim (find_phone_lem id 0 d.phones none) [
    | inl (f, absent) ↦ inl (f, inr absent)
    | inr (i, f, last) ↦ inr (i, f ∙ ap some (omega arith), refl, last)
  ])
]
