-- ===== src/Dashboard/Number.antt =====
-- `validPhoneNumber` of server.go. A text comes from a JSON decoder, so it is a sequence of
-- Unicode characters: `count` counts them and `len` counts their bytes in UTF-8.
use Prim.Native.String.{len, count}
use telco_helm_charts.Common.{
  ◌+◌, ◌≤◌, code, String, Bool, true, false, not, ◌||◌, ◌↔◌, ◌≡◌, refl, ◌∙◌, arith, ltb, nat_eq,
  if◌then◌else◌,
}
use Prim.Native.Char.{Char, len_utf8, len_utf8_def, width}
use Prim.Native.String.len as len_clauses
use Prim.Native.Nat.{compare, Ordering}
use text.Mathlib.TextLemmas.{length-cons}

-- `for _, c := range s { if c < '0' || c > '9' { return false } }; return true`
all_digits : String → Bool
all_digits String.[] = true
all_digits (String.◌∷◌ c s) = if ltb (code c) b'0' || ltb b'9' (code c) then false else all_digits s

-- Byte 0 is '+' exactly when the first character is, since no other encoding begins with it.
begins_plus : String → Bool
begins_plus String.[] = false
begins_plus (String.◌∷◌ c s) = nat_eq (code c) b'+'

abbrev after_first : String → String
after_first String.[] = String.[]
after_first (String.◌∷◌ c s) = s

unfoldable pub valid_phone_number : String → Bool
unfolding all_digits begins_plus
valid_phone_number s =
    if ltb (len s) 3 || ltb 16 (len s) || not (begins_plus s)
    then false
    else all_digits (after_first s)

-- Every character is an ASCII digit.
abbrev pub AllDigits : String → Type 0
AllDigits String.[] = Unit
AllDigits (String.◌∷◌ c s) = (b'0' ≤ code c) × (code c ≤ b'9') × AllDigits s

-- An international number: '+' and 2 to 15 digits.
abbrev pub IsInternational : String → Type 0
IsInternational String.[] = ⊥
IsInternational (String.◌∷◌ c s) = (code c ≡ b'+') × AllDigits s × (2 ≤ count s) × (count s ≤ 15)

-- A comparison that answers "less" settles the width.
width_lt : (o p q : Ordering) → o ≡ Ordering.lt → width o p q ≡ 1
width_lt Ordering.lt p q h = refl
width_lt Ordering.eq p q h = cc
width_lt Ordering.gt p q h = cc

len_utf8-ascii : (c : Char) → code c ≤ 127 → len_utf8 c ≡ 1
len_utf8-ascii c h = (λ i. len_utf8_def c i) ∙ width_lt (compare (code c) 128) _ _ (ground arith)

len-cons : (c : Char) (s : String) → len (String.◌∷◌ c s) ≡ len_utf8 c + len s
len-cons c s = λ i. len_clauses.cons c s i

len-eq-count : (s : String) → AllDigits s → len s ≡ count s
len-eq-count String.[] h = refl
len-eq-count (String.◌∷◌ c s) h =
    omega (arith, len-cons c s, length-cons c s, len_utf8-ascii c, len-eq-count s h.2)

all_digits_iff : (s : String) → (all_digits s ≡ true) ↔ AllDigits s
unfolding all_digits
all_digits_iff String.[] = ground arith
all_digits_iff (String.◌∷◌ c s) = ground (arith, all_digits_iff s)

-- The test accepts exactly the international numbers: '+' and then 2 to 15 ASCII digits.
pub valid_phone_number_iff : (s : String) → (valid_phone_number s ≡ true) ↔ IsInternational s
unfolding valid_phone_number
valid_phone_number_iff String.[] = ground arith
valid_phone_number_iff (String.◌∷◌ c s) =
    ground (arith, len-cons c s, len_utf8-ascii c, all_digits_iff s, len-eq-count s)
