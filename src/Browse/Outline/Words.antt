-- ===== src/Browse/Outline/Words.antt =====
-- What `reader` uses of the package strings: `Fields`, `Join`, `Split` and `TrimSpace`.
use telco_helm_charts.Common.{
  ℕ, String, code, Bool, ◌&&◌, ◌||◌, List, [], ◌∷◌, leb, nat_eq, if◌then◌else◌, ◌==◌, ◌<>◌,
}

-- `unicode.IsSpace`
unfoldable pub is_space : ℕ → Bool
is_space c =
    (leb 9 c && leb c 13)
    || nat_eq c 32
    || nat_eq c 0x85
    || nat_eq c 0xa0
    || nat_eq c 0x1680
    || (leb 0x2000 c && leb c 0x200a)
    || nat_eq c 0x2028
    || nat_eq c 0x2029
    || nat_eq c 0x202f
    || nat_eq c 0x205f
    || nat_eq c 0x3000

abbrev add_word : String → List String → List String
add_word word rest = if word == "" then rest else word ∷ rest

-- `strings.Fields`, with the word that was begun.
unfoldable pub fields_from : String → String → List String
fields_from word String.[] = add_word word []
fields_from word (String.◌∷◌ c s) =
    let rest = fields_from "" s in
    let more = fields_from (word <> String.◌∷◌ c "") s in
    if is_space (code c) then add_word word rest else more

-- `strings.Join`
unfoldable pub join : String → List String → String
join sep [] = ""
join sep (s ∷ []) = s
join sep (s ∷ t ∷ ts) = s <> sep <> join sep (t ∷ ts)

-- `strings.Join(strings.Fields(s), " ")`
unfoldable pub squeeze : String → String
unfolding fields_from
squeeze s = join " " (fields_from "" s)

unfoldable pub trim_left : String → String
trim_left String.[] = ""
trim_left (String.◌∷◌ c s) = if is_space (code c) then trim_left s else String.◌∷◌ c s

unfoldable pub trim_right : String → String
trim_right String.[] = ""
trim_right (String.◌∷◌ c s) =
    let rest = trim_right s in if rest == "" && is_space (code c) then "" else String.◌∷◌ c rest

-- `strings.TrimSpace`
unfoldable pub trim_space : String → String
unfolding trim_left trim_right
trim_space s = trim_right (trim_left s)

-- `strings.Split`, by a separator of one byte, with the part that was begun.
unfoldable pub split_from : (separator : ℕ) → String → String → List String
split_from separator line String.[] = line ∷ []
split_from separator line (String.◌∷◌ c s) =
    let rest = split_from separator "" s in
    let more = split_from separator (line <> String.◌∷◌ c "") s in
    if nat_eq (code c) separator then line ∷ rest else more

-- The loop over the lines at the end of `reader`.
unfoldable pub trimmed_lines : List String → List String
unfolding trim_space
trimmed_lines [] = []
trimmed_lines (l ∷ ls) =
    let rest = trimmed_lines ls in if trim_space l == "" then rest else trim_space l ∷ rest

unfoldable pub text_lines : String → List String
unfolding trimmed_lines split_from
text_lines s = trimmed_lines (split_from 10 "" s)
