-- ===== src/Browse/Address/Special.antt =====
-- Which addresses are public.
use telco_helm_charts.Common.{ℕ, ◌+◌, ◌-◌, ◌≢◌, ◌*◌, ◌/◌, ◌^◌, ◌≤◌, ◌<◌, true, ◌≡◌, ◌↔◌, ◌⊎◌, arith}
use telco_helm_charts.Browse.Address.{v4, v6, quad, public_ip}

-- The ranges of IPv4 addresses that are not public, from first to last.
abbrev pub IsWithin : ℕ → ℕ → ℕ → Type 0
IsWithin first last a = (first ≤ a) × (a ≤ last)

abbrev pub IsSpecial : ℕ → Type 0
IsSpecial a =
    IsWithin (quad 0 0 0 0) (quad 0 255 255 255) a
    ⊎ IsWithin (quad 10 0 0 0) (quad 10 255 255 255) a
    ⊎ IsWithin (quad 100 64 0 0) (quad 100 127 255 255) a
    ⊎ IsWithin (quad 127 0 0 0) (quad 127 255 255 255) a
    ⊎ IsWithin (quad 169 254 0 0) (quad 169 254 255 255) a
    ⊎ IsWithin (quad 172 16 0 0) (quad 172 31 255 255) a
    ⊎ IsWithin (quad 192 0 0 0) (quad 192 0 0 255) a
    ⊎ IsWithin (quad 192 168 0 0) (quad 192 168 255 255) a
    ⊎ IsWithin (quad 198 18 0 0) (quad 198 19 255 255) a
    ⊎ IsWithin (quad 224 0 0 0) (quad 255 255 255 255) a

-- An IPv4 address of 32 bits is public exactly if it lies outside the ten special ranges.
pub public_ip_v4_iff : (a : ℕ) → a < 2 ^ 32 → (public_ip (v4 a) ≡ true) ↔ (¬ IsSpecial a)
unfolding public_ip
public_ip_v4_iff a h = ground arith

-- An IPv4 address of 32 bits, mapped to IPv6, is public exactly if it is public itself.
public_ip_mapped : (a : ℕ) → a < 2 ^ 32 → public_ip (v6 (65535 * 2 ^ 32 + a)) ≡ public_ip (v4 a)
unfolding public_ip
public_ip_mapped a h = ground arith

-- The same for IPv6: unspecified and loopback, fc00::/7, fe80::/10, ff00::/8.
abbrev pub IsSpecial6 : ℕ → Type 0
IsSpecial6 a =
    (a ≤ 1)
    ⊎ IsWithin (0xfc00 * 2 ^ 112) (0xfe00 * 2 ^ 112 - 1) a
    ⊎ IsWithin (0xfe80 * 2 ^ 112) (0xfec0 * 2 ^ 112 - 1) a
    ⊎ IsWithin (0xff00 * 2 ^ 112) (0x10000 * 2 ^ 112 - 1) a

-- An IPv6 address of 128 bits that maps no IPv4 address is public exactly if it is neither
-- unspecified nor loopback and lies outside fc00::/7, fe80::/10 and ff00::/8.
pub public_ip_v6_iff :
    (a : ℕ) → a < 2 ^ 128 → a / 2 ^ 32 ≢ 65535 → (public_ip (v6 a) ≡ true) ↔ (¬ IsSpecial6 a)
unfolding public_ip
public_ip_v6_iff a h k = ground arith
