-- ===== src/Netip.antt =====
-- What the program uses of Go's `net/netip`: addresses and prefixes. `value` is the number that the
-- address stands for, below 2 ^ 32 for IPv4 and below 2 ^ 128 for IPv6.
pub mod Equality
pub mod Errors
pub mod Parse
pub mod Print
pub mod RoundTrip
pub mod Dotted
mod Tests
use kube_vip_cloud_provider.Prelude.{
  ℕ, ◌+◌, ◌-◌, ◌%◌, ◌^◌, String, Bool, true, false, ◌&&◌, ◌==◌, str_eq, if◌then◌else◌,
}

-- The family of an address: `z0` is that of the zero `Addr`, and `z6` carries an IPv6 zone.
pub data Zone : Type 0 where
  z0 z4 z6noz : Zone
  z6 : String → Zone

pub record Addr : Type 0 where
  pub value : ℕ
  pub zone : Zone

abbrev pub zone_eq : Zone → Zone → Bool
zone_eq z0 z0 = true
zone_eq z4 z4 = true
zone_eq z6noz z6noz = true
zone_eq (z6 s) (z6 t) = str_eq s t
zone_eq _ _ = false

-- `a == b` on netip.Addr
unfoldable pub addr_eq : Addr → Addr → Bool
addr_eq a b = a.value == b.value && zone_eq a.zone b.zone

-- The number of addresses of the family.
abbrev pub space : Zone → ℕ
space z4 = 2 ^ 32
space _ = 2 ^ 128

abbrev pub invalid_addr : Addr
invalid_addr = record { value = 0; zone = z0 }

-- Addr.Is4, Addr.Is6
abbrev pub is4 : Addr → Bool
is4 a = elim a.zone [ z4 ↦ true | _ ↦ false ]

abbrev pub is6 : Addr → Bool
is6 a = elim a.zone [ z6noz ↦ true | z6 s ↦ true | _ ↦ false ]

abbrev pub plain : Zone → Zone
plain z0 = z0
plain z4 = z4
plain z6noz = z6noz
plain (z6 _) = z6noz

-- Addr.WithZone("")
abbrev pub without_zone : Addr → Addr
without_zone a = record a { zone = plain a.zone }

-- Addr.BitLen
abbrev pub bit_len : Zone → ℕ
bit_len z0 = 0
bit_len z4 = 32
bit_len _ = 128

-- The byte `a.As4()[3]` of an IPv4 address.
abbrev pub last_byte : Addr → ℕ
last_byte a = a.value % 256

-- Addr.Next and Addr.Prev: the zero `Addr` past the ends of the family.
unfoldable pub next : Addr → Addr
next a = if a.value + 1 == space a.zone then invalid_addr else record a { value = a.value + 1 }

unfoldable pub prev : Addr → Addr
prev a = if a.value == 0 then invalid_addr else record a { value = a.value - 1 }

pub record Prefix : Type 0 where
  pub addr : Addr
  pub bits : ℕ

-- Prefix.IsSingleIP, for a valid prefix
abbrev pub is_single_ip : Prefix → Bool
is_single_ip p = p.bits == bit_len p.addr.zone

-- The addresses of a prefix: how many there are, and the first and the last one as numbers.
abbrev pub prefix_size : Prefix → ℕ
prefix_size p = 2 ^ (bit_len p.addr.zone - p.bits)

abbrev pub prefix_base : Prefix → ℕ
prefix_base p = p.addr.value - p.addr.value % prefix_size p

abbrev pub prefix_last : Prefix → ℕ
prefix_last p = prefix_base p + prefix_size p - 1
