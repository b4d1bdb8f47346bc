-- ===== src/Netipx/Model.antt =====
-- A set of addresses as sorted intervals of numbers: an implementation of the interface, for the
-- tests, that shows that its laws can hold.
pub mod Intervals
pub mod Laws
pub mod Adding
pub mod Ranges
pub mod Prefixes
pub mod Building
use kube_vip_cloud_provider.Prelude.{
  ℕ, zero, suc, ◌+◌, ◌-◌, ◌*◌, ◌%◌, ◌^◌, Bool, true, false, not, ◌&&◌, ◌||◌, ◌==◌, ltb, leb,
  if◌then◌else◌, List, [], ◌∷◌, ◌++◌, map, Result, ok, err, foreign,
}
use kube_vip_cloud_provider.Netip.{
  Addr, Zone, Prefix, without_zone, z4, z6noz, zone_eq, space, bit_len,
}
use kube_vip_cloud_provider.Netipx.{Netipx}
use Intervals.{Interval, insert}

pub record Span : Type 0 where
  pub first : Addr
  pub last : Addr

-- What was added, and whether something invalid was.
pub record Builder : Type 0 where
  pub spans : List Span
  pub failed : Bool

abbrev pub spans_from : Addr → Addr → Span
spans_from a b = record { first = a; last = b }

-- A range of the family `z`.
unfoldable pub is_span : Zone → Span → Bool
is_span z s =
    zone_eq s.first.zone z
    && zone_eq s.last.zone z
    && leb s.first.value s.last.value
    && ltb s.last.value (space z)

unfoldable pub intervals : Zone → List Span → List Interval
unfolding insert
intervals z [] = []
intervals z (s ∷ ss) =
    let rest = intervals z ss in
    if is_span z s then insert s.first.value s.last.value rest else rest

abbrev pub to_span : Zone → Interval → Span
to_span z i = record {
  first = record { value = i.low; zone = z };
  last = record { value = i.high; zone = z };
}

abbrev pub spans : List Span → List Span
spans ss = map (to_span z4) (intervals z4 ss) ++ map (to_span z6noz) (intervals z6noz ss)

abbrev pub in_span : Addr → Span → Bool
in_span a s = zone_eq a.zone s.first.zone && leb s.first.value a.value && leb a.value s.last.value

abbrev pub in_spans : Addr → List Span → Bool
in_spans a [] = false
in_spans a (s ∷ ss) = in_span a s || in_spans a ss

-- The largest block 2 ^ k, with k up to a bound, that is aligned at `a` and ends by `b`.
unfoldable pub block : ℕ → ℕ → ℕ → ℕ
block zero a b = 0
block (suc k) a b =
    let rest = block k a b in
    if a % 2 ^ suc k == 0 && leb (a + 2 ^ suc k) (b + 1) then suc k else rest

-- The prefixes that make up an interval; the fuel is its number of addresses.
unfoldable pub split_interval : Zone → ℕ → ℕ → ℕ → List Prefix
split_interval z zero a b = []
split_interval z (suc fuel) a b =
    let k = block (bit_len z) a b in
    let rest = split_interval z fuel (a + 2 ^ k) b in
    if leb a b
    then record { addr = record { value = a; zone = z }; bits = bit_len z - k } ∷ rest
    else []

unfoldable pub split_intervals : Zone → List Interval → List Prefix
split_intervals z [] = []
split_intervals z (i ∷ is) =
    split_interval z (suc i.high - i.low) i.low i.high ++ split_intervals z is

unfoldable pub prefixes_of : List Span → List Prefix
unfolding block split_interval split_intervals intervals is_span
prefixes_of ss = split_intervals z4 (intervals z4 ss) ++ split_intervals z6noz (intervals z6noz ss)

abbrev pub span_of_prefix : Prefix → Span
span_of_prefix p =
    let size = 2 ^ (bit_len p.addr.zone - p.bits) in
    let base = p.addr.value - p.addr.value % size in
    to_span p.addr.zone (record { low = base; high = base + size - 1 })

abbrev pub span_is_valid : Span → Bool
span_is_valid s = is_span z4 s || is_span z6noz s

abbrev pub add_span : Builder → Span → Builder
add_span b s =
    if span_is_valid s then record b { spans = s ∷ b.spans } else record b { failed = true }

abbrev pub model : Netipx
model = record {
  IPSet = List Span;
  IPRange = Span;
  IPSetBuilder = Builder;
  range_from = λ a b. spans_from (without_zone a) (without_zone b);
  from = λ s. s.first;
  to = λ s. s.last;
  range_is_valid = span_is_valid;
  range_of_prefix = span_of_prefix;
  contains = λ ss a. in_spans a (spans ss);
  ranges = spans;
  prefixes = prefixes_of;
  new_builder = record { spans = []; failed = false };
  add = λ b a. add_span b (spans_from (without_zone a) (without_zone a));
  add_prefix = λ b p. add_span b (span_of_prefix p);
  add_range = add_span;
  ip_set = λ b. if b.failed then err (foreign "netipx") else ok b.spans;
}
