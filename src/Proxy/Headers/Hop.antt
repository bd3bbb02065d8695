-- ===== src/Proxy/Headers/Hop.antt =====
-- `removeHopHeaders`: which entries it removes.
use telco_helm_charts.Common.{
  Bool, false, ◌||◌, List, [], ◌∷◌, map, ◌≡◌, refl, arith, if◌then◌else◌,
}
use telco_helm_charts.Proxy.Headers.{
  Bytes, Header, ascii, bytes_eq, canonical, delete, values, del, hop_headers, del_all,
  remove_hop_headers, is_token, is_upper, is_lower,
}
use telco_helm_charts.Proxy.Headers.Keys.{bytes_eq_iff}

pub values-delete :
    (key j : Bytes) (h : Header)
    → values j (delete key h) ≡ (if bytes_eq key j then [] else values j h)
unfolding values delete
values-delete key j [] = ground arith
values-delete key j ((k, vs) ∷ h) =
    ground (arith, values-delete key j h, bytes_eq_iff k key, bytes_eq_iff k j, bytes_eq_iff key j)

pub values-del :
    (name j : Bytes) (h : Header)
    → values j (del name h) ≡ (if bytes_eq (canonical name) j then [] else values j h)
unfolding del
values-del name j h = values-delete (canonical name) j h

-- `key` is the canonical form of one of the names.
pub is_among : Bytes → List Bytes → Bool
is_among key [] = false
is_among key (name ∷ names) = bytes_eq (canonical name) key || is_among key names

values-del_all :
    (names : List Bytes) (key : Bytes) (h : Header)
    → values key (del_all names h) ≡ (if is_among key names then [] else values key h)
unfolding del_all is_among
values-del_all [] key h = refl
values-del_all (name ∷ names) key h =
    ground (arith, values-del_all names key (del name h), values-del name key h)

-- The hop-by-hop headers, as they stand in a `http.Header`.
abbrev pub hop_keys : List Bytes
hop_keys = map ascii (
    "Connection" ∷ "Proxy-Connection" ∷ "Keep-Alive" ∷ "Proxy-Authenticate" ∷ "Proxy-Authorization"
    ∷ "Te" ∷ "Trailer" ∷ "Transfer-Encoding" ∷ "Upgrade" ∷ [])

unfoldable pub is_hop : Bytes → List Bytes → Bool
is_hop key [] = false
is_hop key (k ∷ ks) = bytes_eq k key || is_hop key ks

-- Of the values of every key, those of the nine hop-by-hop headers are removed and all others
-- stay as they are.
pub values-remove_hop_headers :
    (key : Bytes) (h : Header)
    → values key (remove_hop_headers h) ≡ (if is_hop key hop_keys then [] else values key h)
unfolding remove_hop_headers is_among is_hop canonical is_token is_upper is_lower
values-remove_hop_headers key h = values-del_all hop_headers key h
