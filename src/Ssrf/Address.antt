-- ===== src/Ssrf/Address.antt =====
-- IP addresses as Python's `ipaddress` has them: a number of 32 or 128 bits, an IPv6 address with an
-- optional zone (`%eth0`). The networks are those of CPython 3.14's module, the version of the image.
use ocspcrltesting.Prelude.{
  ℕ, ◌+◌, ◌-◌, ◌*◌, ◌^◌, String, Bool, not, ◌&&◌, ◌||◌, Option, none, some, ltb, leb, ◌==◌,
  if◌then◌else◌,
}

pub data Address : Type 0 where
  v4 : ℕ → Address
  v6 : ℕ → Option String → Address

-- `n` lies in the network of `2 ^ bits` addresses that begins at `base`.
abbrev pub in_network : ℕ → ℕ → ℕ → Bool
in_network n base bits = leb base n && ltb n (base + 2 ^ bits)

-- ::ffff:0:0/96 holds the IPv4-mapped addresses.
abbrev pub mapped_base : ℕ
mapped_base = 0xffff * 2 ^ 32

-- ip.ipv4_mapped
unfoldable pub ipv4_mapped : ℕ → Option ℕ
ipv4_mapped n = if in_network n mapped_base 32 then some (n - mapped_base) else none

unfoldable pub is_loopback : Address → Bool
is_loopback (v4 n) = in_network n 0x7f000000 24
is_loopback (v6 n scope_id) = n == 1

unfoldable pub is_link_local : Address → Bool
is_link_local (v4 n) = in_network n 0xa9fe0000 16
is_link_local (v6 n scope_id) = in_network n (0xfe80 * 2 ^ 112) 118

abbrev private_v4 : ℕ → Bool
private_v4 n =
    in_network n 0 24
    || in_network n 0x0a000000 24
    || in_network n 0x7f000000 24
    || in_network n 0xa9fe0000 16
    || in_network n 0xac100000 20
    || in_network n 0xc0000000 8
    || in_network n 0xc0000200 8
    || in_network n 0xc0a80000 16
    || in_network n 0xc6120000 17
    || in_network n 0xc6336400 8
    || in_network n 0xcb007100 8
    || in_network n 0xf0000000 28

abbrev private_exception_v4 : ℕ → Bool
private_exception_v4 n = n == 0xc0000009 || n == 0xc000000a

abbrev private_v6 : ℕ → Bool
private_v6 n =
    n == 1
    || n == 0
    || in_network n mapped_base 32
    || in_network n (0x64ff9b0001 * 2 ^ 80) 80
    || in_network n (0x0100 * 2 ^ 112) 64
    || in_network n (0x2001 * 2 ^ 112) 105
    || in_network n (0x20010db8 * 2 ^ 96) 96
    || in_network n (0x2002 * 2 ^ 112) 112
    || in_network n (0x3fff * 2 ^ 112) 108
    || in_network n (0xfc00 * 2 ^ 112) 121
    || in_network n (0xfe80 * 2 ^ 112) 118

abbrev private_exception_v6 : ℕ → Bool
private_exception_v6 n =
    n == 0x20010001 * 2 ^ 96 + 1
    || n == 0x20010001 * 2 ^ 96 + 2
    || in_network n (0x20010003 * 2 ^ 96) 96
    || in_network n (0x200100040112 * 2 ^ 80) 80
    || in_network n (0x20010020 * 2 ^ 96) 100
    || in_network n (0x20010030 * 2 ^ 96) 100

unfoldable pub is_private : Address → Bool
is_private (v4 n) = private_v4 n && not (private_exception_v4 n)
is_private (v6 n scope_id) = private_v6 n && not (private_exception_v6 n)

unfoldable pub is_unspecified : Address → Bool
is_unspecified (v4 n) = n == 0
is_unspecified (v6 n scope_id) = n == 0

unfoldable pub is_multicast : Address → Bool
is_multicast (v4 n) = in_network n 0xe0000000 28
is_multicast (v6 n scope_id) = in_network n (0xff00 * 2 ^ 112) 120

-- For IPv6 all that lies outside 2000::/3, fc00::/7, fe80::/9 and ff00::/8.
abbrev reserved_v6 : ℕ → Bool
reserved_v6 n =
    ltb n (0x2000 * 2 ^ 112)
    || (leb (0x4000 * 2 ^ 112) n && ltb n (0xfc00 * 2 ^ 112))
    || in_network n (0xfe00 * 2 ^ 112) 119

unfoldable pub is_reserved : Address → Bool
is_reserved (v4 n) = in_network n 0xf0000000 28
is_reserved (v6 n scope_id) = reserved_v6 n
