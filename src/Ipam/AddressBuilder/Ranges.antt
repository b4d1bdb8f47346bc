-- ===== src/Ipam/AddressBuilder/Ranges.antt =====
-- The addresses of a set that buildAddressesFromRange makes from a text.
use kube_vip_cloud_provider.Prelude.{
  ◌≤◌, String, ◌≡◌, refl, sym, ap, ◌∙◌, ◌↔◌, inl, inr, true, List, [], ◌∷◌, arith, split, Any,
  ◌>>=◌, >>=-eq-ok, ok,
}
use kube_vip_cloud_provider.Netip.{Addr, plain}
use kube_vip_cloud_provider.Netip.Parse.{parse_addr}
use kube_vip_cloud_provider.Netipx.{Netipx, InRange, RangeLaws, added_ranges}
use kube_vip_cloud_provider.Ipam.AddressBuilder.{
  item_range, read_ends, add_ranges, build_addresses_from_range,
}

-- The item is the texts of two addresses with a dash between them, and the address is of the
-- family of the first one, with no zone, and lies between the two.
abbrev pub Spans : String → Addr → Type 0
Spans item a =
    (x y : String) × (first last : Addr) × (split b'-' item ≡ x ∷ y ∷ [])
    × (parse_addr x ≡ ok first)
    × (parse_addr y ≡ ok last)
    × (a.zone ≡ plain first.zone)
    × (first.value ≤ a.value)
    × (a.value ≤ last.value)

-- The two ends of pieces that are two addresses.
both_ends :
    (x y : String) (ends : Addr × Addr)
    → (parse_addr x >>= λ first. parse_addr y >>= λ last. ok (first, last)) ≡ ok ends
    → (parse_addr x ≡ ok ends.0) × (parse_addr y ≡ ok ends.1)
both_ends x y ends e =
    let (first, p, rest) =
      >>=-eq-ok (parse_addr x) (λ first. parse_addr y >>= λ last. ok (first, last)) e in
    let (last, q, done) = >>=-eq-ok (parse_addr y) (λ last. ok (first, last)) rest in
    let same : (first, last) ≡ ends = cc in (p ∙ ap (λ r. ok r.0) same, q ∙ ap (λ r. ok r.1) same)

-- Pieces that are read are two.
read_ends_pieces :
    (pieces : List String) (item : String) (ends : Addr × Addr)
    → read_ends item pieces ≡ ok ends
    → (x y : String) × (pieces ≡ x ∷ y ∷ [])
      × (parse_addr x ≡ ok ends.0)
      × (parse_addr y ≡ ok ends.1)
read_ends_pieces [] item ends e = cc
read_ends_pieces (x ∷ []) item ends e = cc
read_ends_pieces (x ∷ y ∷ []) item ends e = let (p, q) = both_ends x y ends e in (x, y, refl, p, q)
read_ends_pieces (x ∷ y ∷ z ∷ rest) item ends e = cc

module _ (N : Netipx) (L : RangeLaws N) where
  item_iff :
      (item : String) (ends : Addr × Addr) (a : Addr)
      → item_range item ≡ ok ends
      → InRange N a (N.range_from ends.0 ends.1) ↔ Spans item a
  unfolding item_range
  item_iff item ends a e =
      let (x, y, pieces, p, q) = read_ends_pieces (split b'-' item) item ends e in
      (
        rw (L.from_range_from ends.0 ends.1, L.to_range_from ends.0 ends.1)
            (λ (zone, low, high). (x, y, ends.0, ends.1, pieces, p, q, zone, low, high)),
        rw (L.from_range_from ends.0 ends.1, L.to_range_from ends.0 ends.1)
            (λ (x', y', first, last, pieces', p', q', zone, low, high).
              let start : first ≡ ends.0 = cc in
              let end : last ≡ ends.1 = cc in
              let low_end : first.value ≡ ends.0.value = ap (λ r. r.value) start in
              let high_end : last.value ≡ ends.1.value = ap (λ r. r.value) end in
              (zone ∙ ap (λ r. plain r.zone) start, omega arith, omega arith)),
      )

  add_ranges_items :
      (items : List String) (b built : N.IPSetBuilder)
      → add_ranges N items b ≡ ok built
      → (rs : List N.IPRange) × (built ≡ added_ranges N rs b)
        × ((a : Addr) → Any (InRange N a) rs ↔ Any (λ item. Spans item a) items)
  unfolding add_ranges
  add_ranges_items [] b built e = ([], cc, λ a. (λ h. absurd h, λ h. absurd h))
  add_ranges_items (item ∷ items) b built e =
      let (ends, read, rest) =
        >>=-eq-ok (item_range item)
          (λ ends. add_ranges N items (N.add_range b (N.range_from ends.0 ends.1))) e in
      let (rs, same, meant) = add_ranges_items items _ built rest in
      (
        N.range_from ends.0 ends.1 ∷ rs,
        same,
        λ a. (
          λ h. elim h [
            | inl here ↦ inl ((item_iff item ends a read).0 here)
            | inr there ↦ inr ((meant a).0 there)
          ],
          λ h. elim h [
            | inl here ↦ inl ((item_iff item ends a read).1 here)
            | inr there ↦ inr ((meant a).1 there)
          ],
        ),
      )

  -- The set that is built from a list of ranges has an address exactly if one of the items of the
  -- list, between commas, is two addresses with a dash between them, the address is of the family
  -- of the first one, with no zone, and it lies between the two.
  pub build_addresses_from_range-Spans :
      (text : String) (s : N.IPSet)
      → build_addresses_from_range N text ≡ ok s
      → (a : Addr) → (N.contains s a ≡ true) ↔ Any (λ item. Spans item a) (split b',' text)
  unfolding build_addresses_from_range
  build_addresses_from_range-Spans text s e a =
      let (b, added, built) = >>=-eq-ok (add_ranges N (split b',' text) N.new_builder) N.ip_set e in
      let (rs, same, meant) = add_ranges_items (split b',' text) N.new_builder b added in
      let holds = L.add_range_contains rs s (ap N.ip_set (sym same) ∙ built) a in
      (λ h. (meant a).0 (holds.0 h), λ h. holds.1 ((meant a).1 h))
