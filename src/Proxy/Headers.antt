-- ===== src/Proxy/Headers.antt =====
-- images/5g-ue-http-proxy/main.go: headers. A `http.Header` is a list of names with their values;
-- names are bytes, and a header of a request or a response has its names in canonical form.
pub mod Keys
pub mod Hop
pub mod Copy
pub mod Kept
use telco_helm_charts.Common.{
  ℕ, ◌+◌, ◌-◌, String, Char, code, Bool, true, false, not, ◌&&◌, ◌||◌, Option, none, some, List, [],
  ◌∷◌, ◌++◌, map, ltb, leb, nat_eq, if◌then◌else◌,
}

abbrev pub Bytes : Type 0
Bytes = List ℕ

abbrev pub Header : Type 0
Header = List (Bytes × List Bytes)

-- The bytes of a text of ASCII characters.
abbrev pub ascii : String → Bytes
ascii String.[] = []
ascii (String.◌∷◌ c s) = code c ∷ ascii s

abbrev pub bytes_eq : Bytes → Bytes → Bool
bytes_eq [] [] = true
bytes_eq [] (y ∷ ys) = false
bytes_eq (x ∷ xs) [] = false
bytes_eq (x ∷ xs) (y ∷ ys) = nat_eq x y && bytes_eq xs ys

unfoldable pub is_upper : ℕ → Bool
is_upper c = leb 65 c && leb c 90

unfoldable pub is_lower : ℕ → Bool
is_lower c = leb 97 c && leb c 122

pub contains : ℕ → Bytes → Bool
contains c [] = false
contains c (x ∷ xs) = nat_eq c x || contains c xs

-- A byte of a field name (a token of RFC 9110).
unfoldable pub is_token : ℕ → Bool
unfolding contains
is_token c =
    is_upper c || is_lower c || (leb 48 c && leb c 57) || contains c (ascii "!#$%&'*+-.^_`|~")

unfoldable pub all_tokens : Bytes → Bool
all_tokens [] = true
all_tokens (c ∷ cs) = is_token c && all_tokens cs

-- One byte, at the beginning of a word or inside it.
unfoldable pub recase : Bool → ℕ → ℕ
recase true c = if is_lower c then c - 32 else c
recase false c = if is_upper c then c + 32 else c

unfoldable pub capitalise : Bool → Bytes → Bytes
unfolding recase
capitalise first [] = []
capitalise first (c ∷ cs) = recase first c ∷ capitalise (nat_eq c 45) cs

-- `textproto.CanonicalMIMEHeaderKey`
unfoldable pub canonical : Bytes → Bytes
unfolding all_tokens capitalise
canonical name = if all_tokens name then capitalise true name else name

-- The entry of a map: `delete(h, key)`.
unfoldable pub delete : Bytes → Header → Header
delete key [] = []
delete key ((k, vs) ∷ h) =
    let rest = delete key h in if bytes_eq k key then rest else (k, vs) ∷ rest

-- `h[key]`, with no values for a key that is not there.
unfoldable pub values : Bytes → Header → List Bytes
values key [] = []
values key ((k, vs) ∷ h) = if bytes_eq k key then vs else values key h

-- `header.Del(name)`
unfoldable pub del : Bytes → Header → Header
unfolding canonical delete
del name h = delete (canonical name) h

-- `header.Add(name, value)`
pub insert_value : Bytes → Bytes → Header → Header
insert_value key value [] = (key, value ∷ []) ∷ []
insert_value key value ((k, vs) ∷ h) =
    if bytes_eq k key then (k, vs ++ value ∷ []) ∷ h else (k, vs) ∷ insert_value key value h

unfoldable pub add : Bytes → Bytes → Header → Header
unfolding canonical insert_value
add name value h = insert_value (canonical name) value h

abbrev pub hop_headers : List Bytes
hop_headers = map ascii (
    "Connection" ∷ "Proxy-Connection" ∷ "Keep-Alive" ∷ "Proxy-Authenticate" ∷ "Proxy-Authorization"
    ∷ "TE" ∷ "Trailer" ∷ "Transfer-Encoding" ∷ "Upgrade" ∷ [])

pub del_all : List Bytes → Header → Header
del_all [] h = h
del_all (name ∷ names) h = del_all names (del name h)

unfoldable pub remove_hop_headers : Header → Header
unfolding del_all del
remove_hop_headers h = del_all hop_headers h

pub add_all : Bytes → List Bytes → Header → Header
add_all name [] h = h
add_all name (v ∷ vs) h = add_all name vs (add name v h)

-- `copyHeaders(destination, source)`
unfoldable pub copy_headers : Header → Header → Header
unfolding add_all add
copy_headers destination [] = destination
copy_headers destination ((name, vs) ∷ source) = copy_headers (add_all name vs destination) source
