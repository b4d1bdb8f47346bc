-- ===== src/Netipx.antt =====
-- The operations of go4.org/netipx that pkg/ipam and pkg/provider call, as the parameter of
-- everything that uses them, and what its documentation says of them, as named laws.
pub mod Model
pub mod PlainEnds
pub mod Members
use kube_vip_cloud_provider.Prelude.{
  ℕ, zero, suc, ◌+◌, ◌-◌, ◌*◌, ◌/◌, ◌%◌, ◌^◌, ◌≤◌, ◌<◌, String, ◌≡◌, refl, sym, ap, ◌∙◌, subst, ◌≢◌,
  ◌↔◌, ◌⊎◌, inl, inr, Bool, true, false, not, ◌&&◌, ◌||◌, Option, none, some, List, [], ◌∷◌, ◌++◌,
  map, arith, str_eq, eq_iff, ltb, leb, ◌==◌, if◌then◌else◌, ==_iff, Bool-cases, Option-cases,
  power_positive, split, contains_byte, is_empty, concat, join, append_text, first_code, length,
  All, Any, GoError, Result, ◌>>=◌, Result-cases, >>=-eq-ok, Ends, err-Ends, >>=-Ends, out_of_ips,
  errorf, foreign, diverged, err, ok, contains_byte-append, split_front, char_front, split-join,
  split_two, is_empty-append,
}
use kube_vip_cloud_provider.Netip.{
  prefix_base, prefix_last, without_zone, Addr, Prefix, z4, z6noz, space, bit_len,
}

pub record Netipx : Type 1 where
  pub IPSet : Type 0
  pub IPRange : Type 0
  pub IPSetBuilder : Type 0
  -- IPRangeFrom, IPRange.From, IPRange.To, IPRange.IsValid, RangeOfPrefix
  pub range_from : Addr → Addr → IPRange
  pub from : IPRange → Addr
  pub to : IPRange → Addr
  pub range_is_valid : IPRange → Bool
  pub range_of_prefix : Prefix → IPRange
  -- IPSet.Contains, IPSet.Ranges, IPSet.Prefixes
  pub contains : IPSet → Addr → Bool
  pub ranges : IPSet → List IPRange
  pub prefixes : IPSet → List Prefix
  -- &IPSetBuilder{}, Add, AddPrefix, AddRange, IPSet
  pub new_builder : IPSetBuilder
  pub add : IPSetBuilder → Addr → IPSetBuilder
  pub add_prefix : IPSetBuilder → Prefix → IPSetBuilder
  pub add_range : IPSetBuilder → IPRange → IPSetBuilder
  pub ip_set : IPSetBuilder → Result IPSet

-- The order of addresses: the shorter family first, then by value.
abbrev pub Before : Addr → Addr → Type 0
Before a b = (bit_len a.zone < bit_len b.zone) ⊎ ((a.zone ≡ b.zone) × (a.value < b.value))

module _ (N : Netipx) where
  abbrev pub InRange : Addr → N.IPRange → Type 0
  InRange a r =
      (a.zone ≡ (N.from r).zone) × ((N.from r).value ≤ a.value) × (a.value ≤ (N.to r).value)

  -- Both ends are addresses of one family, with no zone and in order.
  pub record IsRange (r : N.IPRange) : Type 0 where
    pub no_zone : ((N.from r).zone ≡ z4) ⊎ ((N.from r).zone ≡ z6noz)
    pub one_family : (N.to r).zone ≡ (N.from r).zone
    pub in_order : (N.from r).value ≤ (N.to r).value
    pub in_space : (N.to r).value < space (N.from r).zone

  abbrev pub IsSorted : List N.IPRange → Type 0
  IsSorted [] = Unit {0}
  IsSorted (r ∷ rs) = All (λ s. Before (N.to r) (N.from s)) rs × IsSorted rs

  -- `Ranges` returns the sorted ranges that cover the set, and `Contains` reports membership.
  pub record SetLaws : Type 0 where
    pub contains_iff :
        (s : N.IPSet) (a : Addr) → (N.contains s a ≡ true) ↔ Any (InRange a) (N.ranges s)
    pub ranges_valid : (s : N.IPSet) → All IsRange (N.ranges s)
    pub ranges_sorted : (s : N.IPSet) → IsSorted (N.ranges s)

  abbrev pub added : List Addr → N.IPSetBuilder → N.IPSetBuilder
  added [] b = b
  added (a ∷ addrs) b = added addrs (N.add b a)

  -- `Add` adds an address without its zone to the set that is built; what is not valid makes `IPSet`
  -- fail.
  pub record AddLaws : Type 0 where
    pub add_contains :
        (addrs : List Addr) (s : N.IPSet)
        → N.ip_set (added addrs N.new_builder) ≡ ok s
        → All (λ a. N.contains s (without_zone a) ≡ true) addrs

  abbrev pub added_ranges : List N.IPRange → N.IPSetBuilder → N.IPSetBuilder
  added_ranges [] b = b
  added_ranges (r ∷ rs) b = added_ranges rs (N.add_range b r)

  -- `IPRangeFrom` keeps its ends but for their zones, a set that is built from ranges has the addresses of the ranges
  -- and no others, and building one from valid ranges does not fail.
  pub record RangeLaws : Type 0 where
    pub from_range_from : (a b : Addr) → N.from (N.range_from a b) ≡ without_zone a
    pub to_range_from : (a b : Addr) → N.to (N.range_from a b) ≡ without_zone b
    pub add_range_contains :
        (rs : List N.IPRange) (s : N.IPSet)
        → N.ip_set (added_ranges rs N.new_builder) ≡ ok s
        → (a : Addr) → (N.contains s a ≡ true) ↔ Any (InRange a) rs
    pub valid_builds :
        (rs : List N.IPRange)
        → All IsRange rs
        → (s : N.IPSet) × (N.ip_set (added_ranges rs N.new_builder) ≡ ok s)

  abbrev pub InPrefix : Addr → Prefix → Type 0
  InPrefix a p = (a.zone ≡ p.addr.zone) × (prefix_base p ≤ a.value) × (a.value ≤ prefix_last p)

  -- A prefix of one of the families with no zone, with its own first address.
  pub record IsPrefix (p : Prefix) : Type 0 where
    pub no_zone : (p.addr.zone ≡ z4) ⊎ (p.addr.zone ≡ z6noz)
    pub few_bits : p.bits ≤ bit_len p.addr.zone
    pub masked : p.addr.value ≡ prefix_base p
    pub in_space : prefix_last p < space p.addr.zone

  -- One call of a builder's operations.
  pub data Addition : Type 0 where
    of_addr : Addr → Addition
    of_prefix : Prefix → Addition
    of_range : N.IPRange → Addition

  abbrev pub applied : Addition → N.IPSetBuilder → N.IPSetBuilder
  applied (of_addr a) b = N.add b a
  applied (of_prefix p) b = N.add_prefix b p
  applied (of_range r) b = N.add_range b r

  abbrev pub added_all : List Addition → N.IPSetBuilder → N.IPSetBuilder
  added_all [] b = b
  added_all (x ∷ xs) b = added_all xs (applied x b)

  -- The addresses that a call adds: an address loses its zone, a prefix and a range have none.
  abbrev pub Adds : Addr → Addition → Type 0
  Adds a (of_addr x) = a ≡ without_zone x
  Adds a (of_prefix p) = InPrefix a p
  Adds a (of_range r) = InRange a r

  -- A set that is built has the addresses that were added and no others. `Prefixes` returns
  -- prefixes that make up the set, and `RangeOfPrefix` the range of a prefix.
  pub record PrefixLaws : Type 0 where
    pub built_contains :
        (xs : List Addition) (s : N.IPSet)
        → N.ip_set (added_all xs N.new_builder) ≡ ok s
        → (a : Addr) → (N.contains s a ≡ true) ↔ Any (Adds a) xs
    pub prefixes_valid : (s : N.IPSet) → All IsPrefix (N.prefixes s)
    pub prefixes_cover :
        (s : N.IPSet) (a : Addr) → (N.contains s a ≡ true) ↔ Any (InPrefix a) (N.prefixes s)
    pub valid_range_of_prefix :
        (p : Prefix) → IsPrefix p → N.range_is_valid (N.range_of_prefix p) ≡ true
    pub from_range_of_prefix :
        (p : Prefix)
        → IsPrefix p
        → N.from (N.range_of_prefix p) ≡ record { value = prefix_base p; zone = p.addr.zone }
    pub to_range_of_prefix :
        (p : Prefix)
        → IsPrefix p
        → N.to (N.range_of_prefix p) ≡ record { value = prefix_last p; zone = p.addr.zone }
