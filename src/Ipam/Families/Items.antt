-- ===== src/Ipam/Families/Items.antt =====
-- The text of an IPv4 range, as SplitRangesByIPFamily of pkg/ipam/addressbuilder.go writes it and
-- buildAddressesFromRange reads it.
use kube_vip_cloud_provider.Prelude.{
  ℕ, ◌^◌, ◌<◌, ◌≡◌, refl, sym, ap, ◌∙◌, subst, ◌≢◌, inl, inr, true, false, arith, contains_byte, ok,
  contains_byte-append, split_two,
}
use kube_vip_cloud_provider.Netip.{Addr, z4, is6, space}
use kube_vip_cloud_provider.Netip.Parse.{parse_addr}
use kube_vip_cloud_provider.Netip.Print.{addr_string}
use kube_vip_cloud_provider.Netip.Dotted.{v4_of, parse_addr-addr_string, addr_string_is_free}
use kube_vip_cloud_provider.Netipx.{Netipx, IsRange}
use kube_vip_cloud_provider.Ipam.AddressBuilder.{item_range, read_ends}
use kube_vip_cloud_provider.Ipam.Families.Joined.{range_text}

module _ (N : Netipx) where
  -- The ends of a range of IPv4 addresses, as numbers of the family.
  pub v4_ends :
      (r : N.IPRange)
      → IsRange N r
      → is6 (N.from r) ≡ false
      → (N.from r ≡ v4_of (N.from r).value)
        × (N.to r ≡ v4_of (N.to r).value)
        × ((N.from r).value < 2 ^ 32)
        × ((N.to r).value < 2 ^ 32)
  v4_ends r v four = elim v.no_zone [
    | inl z ↦
        let end : (N.to r).zone ≡ z4 = v.one_family ∙ z in
        let bound : (N.to r).value < 2 ^ 32 = subst (λ w. (N.to r).value < space w) z v.in_space in
        (with_zone (N.from r) z, with_zone (N.to r) end, omega (arith, v.in_order), bound)
    | inr z ↦ absurd (cc (let q : true ≡ false = rw z at four in q))
  ]
    where
      with_zone : (a : Addr) → a.zone ≡ z4 → a ≡ v4_of a.value
      with_zone a h = cc

  module _ (r : N.IPRange) (v : IsRange N r) (four : is6 (N.from r) ≡ false) where
    pub range_is_free :
        (b : ℕ) → b < 48 → b ≢ 46 → b ≢ 45 → contains_byte b (range_text N r) ≡ false
    unfolding contains_byte
    range_is_free b low no_dot no_dash =
        let (from, to, small, small') = v4_ends r v four in
        let dash : contains_byte b "-" ≡ false = ground arith in
        contains_byte-append b (addr_string (N.from r)) _
          (ap (λ a. contains_byte b (addr_string a)) from
            ∙ addr_string_is_free b low no_dot (N.from r).value small)
          (contains_byte-append b "-" (addr_string (N.to r)) dash (
            ap (λ a. contains_byte b (addr_string a)) to
            ∙ addr_string_is_free b low no_dot (N.to r).value small'))

    pub range_read : item_range (range_text N r) ≡ ok (N.from r, N.to r)
    unfolding item_range
    range_read =
        let (from, to, small, small') = v4_ends r v four in
        let front =
          ap (λ a. contains_byte 45 (addr_string a)) from
          ∙ addr_string_is_free 45 (omega arith) (omega arith) (N.from r).value small in
        let back =
          ap (λ a. contains_byte 45 (addr_string a)) to
          ∙ addr_string_is_free 45 (omega arith) (omega arith) (N.to r).value small' in
        let start : parse_addr (addr_string (N.from r)) ≡ ok (N.from r) =
          ap (λ a. parse_addr (addr_string a)) from
          ∙ parse_addr-addr_string (N.from r).value small
          ∙ ap ok (sym from) in
        let end : parse_addr (addr_string (N.to r)) ≡ ok (N.to r) =
          ap (λ a. parse_addr (addr_string a)) to
          ∙ parse_addr-addr_string (N.to r).value small'
          ∙ ap ok (sym to) in
        ap (read_ends (range_text N r))
          (split_two "-" (addr_string (N.from r)) (addr_string (N.to r)) front back)
        ∙ rw (start, end) refl
