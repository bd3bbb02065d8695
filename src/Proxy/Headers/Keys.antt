-- ===== src/Proxy/Headers/Keys.antt =====
-- The laws of header names: comparison, and the canonical form.
use telco_helm_charts.Common.{
  ℕ, ◌+◌, ◌-◌, Bool, true, false, [], ◌∷◌, ◌≡◌, ◌↔◌, refl, arith, nat_eq, Bool-cases, inl, inr,
}
use telco_helm_charts.Proxy.Headers.{
  Bytes, bytes_eq, is_upper, is_lower, is_token, all_tokens, recase, capitalise, canonical,
}

pub bytes_eq_refl : (k : Bytes) → bytes_eq k k ≡ true
bytes_eq_refl [] = refl
bytes_eq_refl (x ∷ xs) = ground (arith, bytes_eq_refl xs)

pub eq_of_bytes_eq : (j k : Bytes) → bytes_eq j k ≡ true → j ≡ k
eq_of_bytes_eq [] [] h = refl
eq_of_bytes_eq [] (y ∷ ys) h = cc
eq_of_bytes_eq (x ∷ xs) [] h = cc
eq_of_bytes_eq (x ∷ xs) (y ∷ ys) h = ground (arith, eq_of_bytes_eq xs ys)

pub bytes_eq_iff : (j k : Bytes) → (bytes_eq j k ≡ true) ↔ (j ≡ k)
bytes_eq_iff j k = (eq_of_bytes_eq j k, λ e. rw e (bytes_eq_refl k))

is_upper-is_token : (c : ℕ) → is_upper c ≡ true → is_token c ≡ true
unfolding is_token
is_upper-is_token c h = rw h

is_lower-is_token : (c : ℕ) → is_lower c ≡ true → is_token c ≡ true
unfolding is_token
is_lower-is_token c h = elim (Bool-cases (is_upper c)) [ inl e ↦ rw e | inr e ↦ rw (e, h) ]

is_upper_raised : (c : ℕ) → is_lower c ≡ true → is_upper (c - 32) ≡ true
unfolding is_lower is_upper
is_upper_raised c h = ground arith

is_lower_lowered : (c : ℕ) → is_upper c ≡ true → is_lower (c + 32) ≡ true
unfolding is_lower is_upper
is_lower_lowered c h = ground arith

recase-is_token : (b : Bool) (c : ℕ) → is_token c ≡ true → is_token (recase b c) ≡ true
unfolding recase
recase-is_token true c h = elim (Bool-cases (is_lower c)) [
  | inl e ↦ rw e (is_upper-is_token (c - 32) (is_upper_raised c e))
  | inr e ↦ rw e h
]
recase-is_token false c h = elim (Bool-cases (is_upper c)) [
  | inl e ↦ rw e (is_lower-is_token (c + 32) (is_lower_lowered c e))
  | inr e ↦ rw e h
]

recase-recase : (b : Bool) (c : ℕ) → recase b (recase b c) ≡ recase b c
unfolding recase is_upper is_lower
recase-recase true c = ground arith
recase-recase false c = ground arith

recase-dash : (b : Bool) (c : ℕ) → nat_eq (recase b c) 45 ≡ nat_eq c 45
unfolding recase is_upper is_lower
recase-dash true c = ground arith
recase-dash false c = ground arith

capitalise-capitalise : (b : Bool) (s : Bytes) → capitalise b (capitalise b s) ≡ capitalise b s
unfolding capitalise
capitalise-capitalise b [] = refl
capitalise-capitalise b (c ∷ s) =
    rw (recase-recase b c, recase-dash b c, capitalise-capitalise (nat_eq c 45) s)

capitalise-all_tokens :
    (b : Bool) (s : Bytes) → all_tokens s ≡ true → all_tokens (capitalise b s) ≡ true
unfolding capitalise all_tokens
capitalise-all_tokens b [] h = refl
capitalise-all_tokens b (c ∷ s) h =
    ground (arith, recase-is_token b c, capitalise-all_tokens (nat_eq c 45) s)

-- The canonical form of a name is canonical.
pub canonical-canonical : (name : Bytes) → canonical (canonical name) ≡ canonical name
unfolding canonical
canonical-canonical name = elim (Bool-cases (all_tokens name)) [
  | inl e ↦ rw (e, capitalise-all_tokens true name e) (capitalise-capitalise true name)
  | inr e ↦ rw (e, e)
]
