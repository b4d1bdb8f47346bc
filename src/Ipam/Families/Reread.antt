-- ===== src/Ipam/Families/Reread.antt =====
-- The IPv4 ranges of SplitRangesByIPFamily of pkg/ipam/addressbuilder.go, when they are read again as
-- a pool.
use kube_vip_cloud_provider.Ipam.Families.{split_ranges_by_ip_family, Pools}
use kube_vip_cloud_provider.Prelude.{
  ℕ, String, ◌≡◌, refl, sym, ap, ◌∙◌, ◌↔◌, inl, inr, Bool, true, false, List, [], ◌∷◌, arith,
  Bool-cases, split, contains_byte, is_empty, join, All, Any, ◌>>=◌, ok, contains_byte-append,
  split-join,
}
use kube_vip_cloud_provider.Netip.{Addr, z4, is6}
use kube_vip_cloud_provider.Netipx.PlainEnds.{kept_from, kept_to}
use kube_vip_cloud_provider.Netipx.{SetLaws, InRange, added_ranges, RangeLaws, Netipx, IsRange}
use kube_vip_cloud_provider.Ipam.AddressBuilder.{build_addresses_from_range, add_ranges}
use kube_vip_cloud_provider.Ipam.Families.Joined.{
  split_ranges_by_ip_family-join, texts_of, range_text,
}
use kube_vip_cloud_provider.Ipam.Families.Items.{v4_ends, range_is_free, range_read}

module _ (N : Netipx) where
  -- The IPv4 ranges of a list, rebuilt from their ends.
  abbrev kept : Bool → N.IPRange → List N.IPRange → List N.IPRange
  kept true r rest = rest
  kept false r rest = N.range_from (N.from r) (N.to r) ∷ rest

  abbrev rebuilt : List N.IPRange → List N.IPRange
  rebuilt [] = []
  rebuilt (r ∷ rs) = kept (is6 (N.from r)) r (rebuilt rs)

  abbrev texts : List N.IPRange → List String
  texts rs = texts_of (λ r. is6 (N.from r)) (range_text N) false rs

  texts_are_free :
      (rs : List N.IPRange) → All (IsRange N) rs → All (λ t. contains_byte 44 t ≡ false) (texts rs)
  texts_are_free [] vs = tt
  texts_are_free (r ∷ rs) (v, vs) = elim (Bool-cases (is6 (N.from r))) [
    | inl six ↦ rw six (texts_are_free rs vs)
    | inr four ↦ rw four (
      range_is_free N r v four 44 (omega arith) (omega arith) (omega arith),
      texts_are_free rs vs,
    )
  ]

  texts_read :
      (rs : List N.IPRange) (b : N.IPSetBuilder)
      → All (IsRange N) rs
      → add_ranges N (texts rs) b ≡ ok (added_ranges N (rebuilt rs) b)
  unfolding add_ranges
  texts_read [] b vs = refl
  texts_read (r ∷ rs) b (v, vs) = elim (Bool-cases (is6 (N.from r))) [
    | inl six ↦ rw six (texts_read rs b vs)
    | inr four ↦
        rw (four, add_ranges, range_read N r v four)
          (texts_read rs (N.add_range b (N.range_from (N.from r) (N.to r))) vs)
  ]

  split_texts :
      (ts : List String)
      → All (λ t. contains_byte 44 t ≡ false) ts
      → is_empty (join "," ts) ≡ false
      → split 44 (join "," ts) ≡ ts
  unfolding join
  split_texts [] free h = cc
  split_texts (t ∷ ts) free h = split-join "," t ts free

  module _ (R : RangeLaws N) where
    rebuilt_iff :
        (rs : List N.IPRange) (a : Addr)
        → All (IsRange N) rs
        → Any (InRange N a) (rebuilt rs) ↔ (Any (InRange N a) rs × (a.zone ≡ z4))
    rebuilt_iff [] a vs = (λ h. absurd h, λ h. absurd h.0)
    rebuilt_iff (r ∷ rs) a (v, vs) = elim (Bool-cases (is6 (N.from r))) [
      | inl six ↦
          let rest = rebuilt_iff rs a vs in
          rw six (
            λ h. (let (m, z) = rest.0 h in (inr m, z)),
            λ (h, z). elim h [
              | inl here ↦ absurd (
                  let q : (N.from r).zone ≡ z4 = sym here.0 ∙ z in
                  cc (let w : false ≡ true = rw q at six in w))
              | inr there ↦ rest.1 (there, z)
            ],
          )
      | inr four ↦
          let rest = rebuilt_iff rs a vs in
          let (from, _, _, _) = v4_ends N r v four in
          let zone : (N.from r).zone ≡ z4 = ap (λ x. x.zone) from in
          rw four (
            rw
              (
                kept_from N R (N.from r) (N.to r) v.no_zone,
                kept_to N R (N.from r) (N.to r) (rw v.one_family v.no_zone),
              )
              (
                λ h. elim h [
                  | inl here ↦ (inl here, here.0 ∙ zone)
                  | inr m ↦ (let (there, z) = rest.0 m in (inr there, z))
                ],
                λ (h, z). elim h [ inl here ↦ inl here | inr there ↦ inr (rest.1 (there, z)) ],
              ))
    ]

    rebuilt-IsRange : (r : N.IPRange) → IsRange N r → IsRange N (N.range_from (N.from r) (N.to r))
    rebuilt-IsRange r v =
        let from = kept_from N R (N.from r) (N.to r) v.no_zone in
        let to = kept_to N R (N.from r) (N.to r) (rw v.one_family v.no_zone) in
        record {
          no_zone = rw from v.no_zone;
          one_family = rw (from, to) v.one_family;
          in_order = rw (from, to) v.in_order;
          in_space = rw (from, to) v.in_space;
        }

    All-rebuilt : (rs : List N.IPRange) → All (IsRange N) rs → All (IsRange N) (rebuilt rs)
    All-rebuilt [] vs = tt
    All-rebuilt (r ∷ rs) (v, vs) = elim (Bool-cases (is6 (N.from r))) [
      | inl six ↦ rw six (All-rebuilt rs vs)
      | inr four ↦ rw four (rebuilt-IsRange r v, All-rebuilt rs vs)
    ]

    -- The IPv4 pool of a list of ranges, as SplitRangesByIPFamily writes it, can be read again: if
    -- it is not empty, then a pool is built from it, and this has exactly the IPv4 addresses of the
    -- set that the list itself makes.
    pub split_ranges_by_ip_family-reread :
        (L : SetLaws N) (text : String) (pools : Pools)
        → split_ranges_by_ip_family N text ≡ ok pools
        → is_empty pools.ipv4 ≡ false
        → (s : N.IPSet) × (again : N.IPSet) × (build_addresses_from_range N text ≡ ok s)
          × (build_addresses_from_range N pools.ipv4 ≡ ok again)
          × ((a : Addr) → (N.contains again a ≡ true) ↔ ((N.contains s a ≡ true) × (a.zone ≡ z4)))
    unfolding build_addresses_from_range
    split_ranges_by_ip_family-reread L text pools e some_ =
        let (s, parsed, four, _) = split_ranges_by_ip_family-join N text pools e in
        let vs = L.ranges_valid s in
        let b = added_ranges N (rebuilt (N.ranges s)) N.new_builder in
        let (again, built) = R.valid_builds (rebuilt (N.ranges s)) (All-rebuilt (N.ranges s) vs) in
        let pieces : split 44 pools.ipv4 ≡ texts (N.ranges s) =
          ap (split 44) four
          ∙ split_texts (texts (N.ranges s)) (texts_are_free (N.ranges s) vs)
              (ap is_empty (sym four) ∙ some_) in
        let read : add_ranges N (split 44 pools.ipv4) N.new_builder ≡ ok b =
          ap (λ items. add_ranges N items N.new_builder) pieces
          ∙ texts_read (N.ranges s) N.new_builder vs in
        (
          s,
          again,
          parsed,
          ap (λ r. r >>= N.ip_set) read ∙ built,
          λ a.
              let holds = R.add_range_contains (rebuilt (N.ranges s)) again built a in
              let meant = rebuilt_iff (N.ranges s) a vs in
              let same = L.contains_iff s a in
              (
                λ h. (let (m, z) = meant.0 (holds.0 h) in (same.1 m, z)),
                λ (h, z). holds.1 (meant.1 (same.0 h, z)),
              ),
        )

  -- A byte below the digits that is none of the dot, the dash and the comma is not in the text.
  join_is_free :
      (b : ℕ) (ts : List String)
      → contains_byte b "," ≡ false
      → All (λ t. contains_byte b t ≡ false) ts
      → contains_byte b (join "," ts) ≡ false
  unfolding contains_byte join
  join_is_free b [] comma h = refl
  join_is_free b (t ∷ []) comma h = h.0
  join_is_free b (t ∷ u ∷ ts) comma h =
      contains_byte-append b t _ h.0
        (contains_byte-append b "," _ comma (join_is_free b (u ∷ ts) comma h.1))

  texts_have_no_slash :
      (rs : List N.IPRange) → All (IsRange N) rs → All (λ t. contains_byte 47 t ≡ false) (texts rs)
  texts_have_no_slash [] vs = tt
  texts_have_no_slash (r ∷ rs) (v, vs) = elim (Bool-cases (is6 (N.from r))) [
    | inl six ↦ rw six (texts_have_no_slash rs vs)
    | inr four ↦ rw four (
      range_is_free N r v four 47 (omega arith) (omega arith) (omega arith),
      texts_have_no_slash rs vs,
    )
  ]

  -- The IPv4 pool of a list of ranges is no CIDR.
  pub split_ranges_is_no_cidr :
      (L : SetLaws N) (text : String) (pools : Pools)
      → split_ranges_by_ip_family N text ≡ ok pools
      → contains_byte 47 pools.ipv4 ≡ false
  unfolding contains_byte
  split_ranges_is_no_cidr L text pools e =
      let (s, _, four, _) = split_ranges_by_ip_family-join N text pools e in
      ap (contains_byte 47) four
      ∙ join_is_free 47 (texts (N.ranges s)) refl
          (texts_have_no_slash (N.ranges s) (L.ranges_valid s))
