-- ===== src/Ipam/AddressBuilder/Cidrs.antt =====
-- The addresses of a set that buildHostsFromCidr makes from a text.
use kube_vip_cloud_provider.Prelude.{
  ℕ, zero, suc, ◌+◌, ◌-◌, ◌^◌, ◌≤◌, ◌<◌, String, ◌≡◌, refl, sym, ap, ◌∙◌, subst, ◌≢◌, ◌↔◌, ◌⊎◌, inl,
  inr, Bool, true, List, [], ◌∷◌, arith, ◌==◌, Bool-cases, power_positive, split, Any, >>=-eq-ok,
  ok,
}
use kube_vip_cloud_provider.Netip.{
  z4, bit_len, prefix_base, prefix_last, prefix_size, Prefix, z0, z4, z6noz, z6, next, prev, is4,
  space, Zone, Addr, Prefix, is4, prefix_base, prefix_last,
}
use kube_vip_cloud_provider.Netip.Parse.{parse_prefix}
use kube_vip_cloud_provider.Netipx.PlainEnds.{kept_from, kept_to}
use kube_vip_cloud_provider.Netipx.{
  IsPrefix, InRange, InPrefix, PrefixLaws, RangeLaws, Netipx, IsPrefix, InRange, Netipx, InPrefix,
  RangeLaws, PrefixLaws, Addition, of_prefix, added_all, Adds,
}
use kube_vip_cloud_provider.Ipam.AddressBuilder.{add_prefixes, parse_cidrs}

module _ (N : Netipx) where
  -- The item is the text of a prefix that has the address.
  abbrev pub IsCidrOf : Addr → String → Type 0
  IsCidrOf a item = (p : Prefix) × (parse_prefix item ≡ ok p) × InPrefix N a p

  -- The addresses that are kept of a prefix of IPv4 with the ends skipped: all of one with a
  -- single address or with two, and all but the first and the last of a larger one.
  abbrev pub IsInner : Addr → Prefix → Type 0
  IsInner a p =
      (p.bits ≡ 32) ⊎ (p.bits ≡ 31) ⊎ ((prefix_base p < a.value) × (a.value < prefix_last p))

  -- The addresses that are kept of a prefix.
  abbrev pub IsHost : Bool → Addr → Prefix → Type 0
  IsHost skip a p = InPrefix N a p × ((is4 p.addr ≡ true) → (skip ≡ true) → IsInner a p)

  module _ (L : PrefixLaws N) (R : RangeLaws N) where
    add_prefixes_items :
        (items : List String) (b built : N.IPSetBuilder)
        → add_prefixes N items b ≡ ok built
        → (xs : List (Addition N)) × (built ≡ added_all N xs b)
          × ((a : Addr) → Any (Adds N a) xs ↔ Any (IsCidrOf a) items)
    unfolding add_prefixes
    add_prefixes_items [] b built e = ([], cc, λ a. (λ h. absurd h, λ h. absurd h))
    add_prefixes_items (item ∷ items) b built e =
        let (p, read, rest) =
          >>=-eq-ok (parse_prefix item) (λ p. add_prefixes N items (N.add_prefix b p)) e in
        let (xs, same, meant) = add_prefixes_items items _ built rest in
        (
          of_prefix p ∷ xs,
          same,
          λ a. (
            λ h. elim h [ inl here ↦ inl (p, read, here) | inr there ↦ inr ((meant a).0 there) ],
            λ h. elim h [
              | inl (q, read', here) ↦ let one : q ≡ p = cc in inl (subst (InPrefix N a) one here)
              | inr there ↦ inr ((meant a).1 there)
            ],
          ),
        )

    -- The set of the prefixes, before any ends are skipped.
    pub parse_cidrs-IsCidrOf :
        (text : String) (s : N.IPSet)
        → parse_cidrs N text ≡ ok s
        → (a : Addr) → (N.contains s a ≡ true) ↔ Any (IsCidrOf a) (split b',' text)
    unfolding parse_cidrs
    parse_cidrs-IsCidrOf text s e a =
        let (b, added, built) =
          >>=-eq-ok (add_prefixes N (split b',' text) N.new_builder) N.ip_set e in
        let (xs, same, meant) = add_prefixes_items (split b',' text) N.new_builder b added in
        let holds = L.built_contains xs s (ap N.ip_set (sym same) ∙ built) a in
        (λ h. (meant a).0 (holds.0 h), λ h. holds.1 ((meant a).1 h))

pub zone_of_is4 :
    (value : ℕ) (zone : Zone) → is4 (record { value = value; zone = zone }) ≡ true → zone ≡ z4
zone_of_is4 value z4 h = refl
zone_of_is4 value z0 h = cc
zone_of_is4 value z6noz h = cc
zone_of_is4 value (z6 s) h = cc

next_inner : (a : Addr) → a.value + 1 < space a.zone → next a ≡ record a { value = a.value + 1 }
unfolding next
next_inner a h = elim (Bool-cases (a.value + 1 == space a.zone)) [
  | inl e ↦ absurd (ground arith)
  | inr e ↦ rw (next, e) refl
]

prev_inner : (a : Addr) → 1 ≤ a.value → prev a ≡ record a { value = a.value - 1 }
unfolding prev
prev_inner a h = elim (Bool-cases (a.value == 0)) [
  | inl e ↦ absurd (ground arith)
  | inr e ↦ rw (prev, e) refl
]

sub_self : (n : ℕ) → n - n ≡ 0
sub_self n = omega arith

-- A prefix that is not a single address has two at least.
two_addresses : (n : ℕ) → 1 ≤ n → 2 ≤ 2 ^ n
two_addresses zero h = absurd (omega arith)
two_addresses (suc n) h = let some_ = power_positive n in omega arith

module _ (N : Netipx) (L : PrefixLaws N) (R : RangeLaws N) (p : Prefix) (v : IsPrefix N p) where
  pub whole_range_iff :
      (a : Addr)
      → InRange N a (N.range_from (N.from (N.range_of_prefix p)) (N.to (N.range_of_prefix p)))
        ↔ InPrefix N a p
  whole_range_iff a =
      let r = N.range_of_prefix p in
      rw
        (
          kept_from N R (N.from r) (N.to r) (rw (L.from_range_of_prefix p v) v.no_zone),
          kept_to N R (N.from r) (N.to r) (rw (L.to_range_of_prefix p v) v.no_zone),
          L.from_range_of_prefix p v,
          L.to_range_of_prefix p v,
        )
        (λ h. h, λ h. h)

  -- A prefix of one address.
  pub single_iff : (a : Addr) → p.bits ≡ bit_len p.addr.zone → (a ≡ p.addr) ↔ InPrefix N a p
  single_iff a e =
      let size : prefix_size p ≡ 1 = rw (e, sub_self (bit_len p.addr.zone)) refl in
      (
        λ h.
            (let value : a.value ≡ p.addr.value = ap (λ y. y.value) h in
              (ap (λ y. y.zone) h, omega (arith, v.masked), omega (arith, v.masked))),
        λ (zone, low, high). (let value : a.value ≡ p.addr.value = omega (arith, v.masked) in cc),
      )

  module _ (four : p.addr.zone ≡ z4) (many : p.bits ≢ 32) where
    size_of : 2 ≤ prefix_size p
    size_of =
        let len : bit_len p.addr.zone ≡ 32 = rw four refl in
        let few = v.few_bits in two_addresses (bit_len p.addr.zone - p.bits) (omega (arith, many))

    pub inner_range_iff :
        (a : Addr)
        → InRange N a
            (N.range_from (next (N.from (N.range_of_prefix p))) (prev (N.to (N.range_of_prefix p))))
          ↔ ((a.zone ≡ p.addr.zone) × (prefix_base p < a.value) × (a.value < prefix_last p))
    inner_range_iff a =
        let r = N.range_of_prefix p in
        let size = size_of in
        let inside = v.in_space in
        let start =
          next_inner (record { value = prefix_base p; zone = p.addr.zone }) (omega arith) in
        let end = prev_inner (record { value = prefix_last p; zone = p.addr.zone }) (omega arith) in
        rw
          (
            kept_from N R (next (N.from r)) (prev (N.to r))
                (rw (L.from_range_of_prefix p v, start) v.no_zone),
            kept_to N R (next (N.from r)) (prev (N.to r))
                (rw (L.to_range_of_prefix p v, end) v.no_zone),
            L.from_range_of_prefix p v,
            L.to_range_of_prefix p v,
            start,
            end,
          )
          (
            λ (zone, low, high). (zone, omega arith, omega arith),
            λ (zone, low, high). (zone, omega arith, omega arith),
          )
