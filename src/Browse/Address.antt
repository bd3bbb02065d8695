-- ===== src/Browse/Address.antt =====
-- `publicIP` of browse.go. An address of net/netip is a 32-bit or a 128-bit number (the zone of an
-- IPv6 address plays no part here); its predicates are those of net/netip.
pub mod Special
use telco_helm_charts.Common.{
  ℕ, ◌+◌, ◌*◌, ◌/◌, ◌%◌, ◌^◌, Bool, true, false, not, ◌&&◌, ◌||◌, List, [], ◌∷◌, nat_eq,
  if◌then◌else◌,
}

pub data Addr : Type 0 where
  v4 : ℕ → Addr
  v6 : ℕ → Addr

-- The number of a.b.c.d.
abbrev pub quad : ℕ → ℕ → ℕ → ℕ → ℕ
quad a b c d = ((a * 256 + b) * 256 + c) * 256 + d

-- `netip.Prefix.Contains` for a prefix of IPv4: the first bits, all but `size` of them, agree.
abbrev pub in_v4 : (base size : ℕ) → ℕ → Bool
in_v4 base size a = nat_eq (a / 2 ^ size) (base / 2 ^ size)

abbrev pub in_v6 : (top size : ℕ) → ℕ → Bool
in_v6 top size a = nat_eq (a / 2 ^ size) top

-- An IPv4 address mapped to IPv6, ::ffff:a.b.c.d, stands for the IPv4 address.
unfoldable pub unmap : Addr → Addr
unmap (v4 a) = v4 a
unmap (v6 a) = if nat_eq (a / 2 ^ 32) 65535 then v4 (a % 2 ^ 32) else v6 a

unfoldable pub is_loopback : Addr → Bool
is_loopback (v4 a) = in_v4 (quad 127 0 0 0) 24 a
is_loopback (v6 a) = nat_eq a 1

unfoldable pub is_multicast : Addr → Bool
is_multicast (v4 a) = in_v4 (quad 224 0 0 0) 28 a
is_multicast (v6 a) = in_v6 0xff 120 a

unfoldable pub is_link_local_unicast : Addr → Bool
is_link_local_unicast (v4 a) = in_v4 (quad 169 254 0 0) 16 a
is_link_local_unicast (v6 a) = in_v6 0x3fa 118 a

unfoldable pub is_private : Addr → Bool
is_private (v4 a) =
    in_v4 (quad 10 0 0 0) 24 a || in_v4 (quad 172 16 0 0) 20 a || in_v4 (quad 192 168 0 0) 16 a
is_private (v6 a) = in_v6 0x7e 121 a

abbrev is_unspecified_or_broadcast : Addr → Bool
is_unspecified_or_broadcast (v4 a) = nat_eq a 0 || nat_eq a (quad 255 255 255 255)
is_unspecified_or_broadcast (v6 a) = nat_eq a 0

unfoldable pub is_global_unicast : Addr → Bool
unfolding is_loopback is_multicast is_link_local_unicast
is_global_unicast a =
    not (is_unspecified_or_broadcast a)
    && not (is_loopback a)
    && not (is_multicast a)
    && not (is_link_local_unicast a)

-- The loop over the listed prefixes, which are all of IPv4 and hold no IPv6 address.
unfoldable pub is_listed : Addr → Bool
is_listed (v4 a) =
    in_v4 (quad 0 0 0 0) 24 a
    || in_v4 (quad 100 64 0 0) 22 a
    || in_v4 (quad 192 0 0 0) 8 a
    || in_v4 (quad 198 18 0 0) 17 a
    || in_v4 (quad 240 0 0 0) 28 a
is_listed (v6 a) = false

unfoldable pub public_ip : Addr → Bool
unfolding unmap is_global_unicast is_private is_loopback is_link_local_unicast is_listed
public_ip addr =
    let a = unmap addr in
    if not (is_global_unicast a) || is_private a || is_loopback a || is_link_local_unicast a
    then false
    else not (is_listed a)
