-- ===== src/Proxy/Headers/Copy.antt =====
-- `copyHeaders`: every value of the source is added to the destination.
use telco_helm_charts.Common.{
  List, [], ◌∷◌, ◌++◌, ◌≡◌, sym, subst, ◌∙◌, ap, arith, if◌then◌else◌, Bool-cases, inl, inr,
}
use mathlib.Core.List.{append-nil, append_assoc}
use telco_helm_charts.Proxy.Headers.{
  Bytes, Header, bytes_eq, canonical, values, add, insert_value, add_all, copy_headers,
}
use telco_helm_charts.Proxy.Headers.Keys.{eq_of_bytes_eq, bytes_eq_iff}

pub values-insert_value :
    (key value j : Bytes) (h : Header)
    → values j (insert_value key value h)
      ≡ (if bytes_eq key j then values j h ++ value ∷ [] else values j h)
unfolding values insert_value
values-insert_value key value j [] = ground arith
values-insert_value key value j ((k, vs) ∷ h) = ground (
  arith,
  values-insert_value key value j h,
  bytes_eq_iff k key,
  bytes_eq_iff k j,
  bytes_eq_iff key j,
)

values-add :
    (name value j : Bytes) (h : Header)
    → values j (add name value h)
      ≡ (if bytes_eq (canonical name) j then values j h ++ value ∷ [] else values j h)
unfolding add
values-add name value j h = values-insert_value (canonical name) value j h

values-add_all :
    (name : Bytes) (vs : List Bytes) (j : Bytes) (h : Header)
    → values j (add_all name vs h)
      ≡ (if bytes_eq (canonical name) j then values j h ++ vs else values j h)
unfolding add_all
values-add_all name [] j h = elim (Bool-cases (bytes_eq (canonical name) j)) [
  | inl e ↦ rw e (sym (append-nil (values j h)))
  | inr e ↦ rw e
]
values-add_all name (v ∷ vs) j h = elim (Bool-cases (bytes_eq (canonical name) j)) [
  | inl e ↦
      rw (values-add_all name vs j (add name v h), values-add name v j h, e)
        (append_assoc (values j h) (v ∷ []) vs)
  | inr e ↦ rw (values-add_all name vs j (add name v h), values-add name v j h, e)
]

-- A header as it comes from the network: its names are canonical, each name stands once.
abbrev pub IsWellFormed : Header → Type 0
IsWellFormed [] = Unit
IsWellFormed ((k, vs) ∷ h) = (canonical k ≡ k) × (values k h ≡ []) × IsWellFormed h

values-add_canonical :
    (k : Bytes) (vs : List Bytes) (j : Bytes) (h : Header)
    → canonical k ≡ k
    → values j (add_all k vs h) ≡ (if bytes_eq k j then values j h ++ vs else values j h)
values-add_canonical k vs j h c =
    subst (λ n. values j (add_all k vs h) ≡ (if bytes_eq n j then values j h ++ vs else values j h))
      c (values-add_all k vs j h)

-- One entry of the source, before the rest of it.
values-entry :
    (key k : Bytes) (vs : List Bytes) (destination source : Header)
    → values k source ≡ []
    → (if bytes_eq k key then values key destination ++ vs else values key destination)
        ++ values key source
      ≡ values key destination ++ values key ((k, vs) ∷ source)
unfolding values
values-entry key k vs destination source once = elim (Bool-cases (bytes_eq k key)) [
  | inl e ↦
      let absent : values key source ≡ [] =
        subst (λ x. values x source ≡ []) (eq_of_bytes_eq k key e) once in
      rw (e, absent) (append-nil _)
  | inr e ↦ rw e
]

-- If the names in the source are canonical and stand once each, a copy adds the source's values
-- under every key behind those of the destination.
pub values-copy_headers :
    (key : Bytes) (destination source : Header)
    → IsWellFormed source
    → values key (copy_headers destination source) ≡ values key destination ++ values key source
unfolding copy_headers
values-copy_headers key destination [] h =
    unfold values in sym (append-nil (values key destination))
values-copy_headers key destination ((k, vs) ∷ source) (c, once, h) =
    values-copy_headers key (add_all k vs destination) source h
    ∙ ap (λ l. l ++ values key source) (values-add_canonical k vs key destination c)
    ∙ values-entry key k vs destination source once
