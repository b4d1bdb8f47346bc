-- ===== src/Ipam/AddressBuilder/Hosts.antt =====
-- What buildHostsFromCidr keeps of the prefixes of a set, and the addresses of the set that it makes.
use mathlib.Core.List.{foldl}
use kube_vip_cloud_provider.Prelude.{
  String, ◌≡◌, refl, sym, ap, ◌∙◌, subst, ◌≢◌, ◌↔◌, ◌⊎◌, inl, inr, Bool, true, false, ◌&&◌, Option,
  List, [], ◌∷◌, arith, ◌==◌, ==_iff, Bool-cases, split, All, Any, >>=-eq-ok, ok,
}
use kube_vip_cloud_provider.Netip.{Addr, Prefix, next, prev, is4, is_single_ip, bit_len}
use kube_vip_cloud_provider.Netip.Equality.{without_zone_same}
use kube_vip_cloud_provider.Netipx.{
  InPrefix, Netipx, IsPrefix, RangeLaws, PrefixLaws, Addition, of_addr, of_prefix, of_range,
  applied, added_all, Adds,
}
use kube_vip_cloud_provider.Config.{KubevipLbConfig}
use kube_vip_cloud_provider.Ipam.AddressBuilder.{
  skips_ends, parse_cidrs, add_hosts, build_hosts_from_cidr,
}
use kube_vip_cloud_provider.Ipam.AddressBuilder.Cidrs.{
  parse_cidrs-IsCidrOf, IsCidrOf, IsHost, whole_range_iff, single_iff, inner_range_iff, zone_of_is4,
}

module _ (N : Netipx) (L : PrefixLaws N) (R : RangeLaws N) (skip : Bool) where
  -- One round of the loop is one addition, of the addresses that are kept of the prefix.
  abbrev IsOneAddition : Prefix → Type 0
  IsOneAddition p =
      (x : Addition N) × ((b : N.IPSetBuilder) → add_hosts N skip b p ≡ applied N x b)
      × ((a : Addr) → Adds N a x ↔ IsHost N skip a p)

  six_hosts : (p : Prefix) → is4 p.addr ≡ false → IsOneAddition p
  unfolding add_hosts
  six_hosts p six = (
    of_prefix p,
    λ b. rw (add_hosts, six) refl,
    λ a. (λ h. (h, λ four. cc (let q : true ≡ false = sym four ∙ six in q)), λ h. h.0),
  )

  single_hosts :
      (p : Prefix)
      → IsPrefix N p
      → is4 p.addr ≡ true
      → skip ≡ true
      → is_single_ip p ≡ true
      → IsOneAddition p
  unfolding add_hosts
  single_hosts p v four skips single =
      let zone = zone_of_is4 p.addr.value p.addr.zone four in
      let bits : p.bits ≡ bit_len p.addr.zone = ground arith in
      let all : p.bits ≡ 32 = bits ∙ rw zone refl in
      let same = without_zone_same p.addr v.no_zone in
      (
        of_addr p.addr,
        λ b. rw (add_hosts, four, single, skips) refl,
        λ a. (
          λ h. ((single_iff N L R p v a bits).0 (h ∙ same), λ _ _. inl all),
          λ h. (single_iff N L R p v a bits).1 h.0 ∙ sym same,
        ),
      )

  whole_hosts :
      (p : Prefix)
      → IsPrefix N p
      → is4 p.addr ≡ true
      → (is_single_ip p && skip) ≡ false
      → ((p.bits == 31) ≡ true) ⊎ (skip ≡ false)
      → IsOneAddition p
  unfolding add_hosts
  whole_hosts p v four large (inl two) = (
    of_range (N.range_from (N.from (N.range_of_prefix p)) (N.to (N.range_of_prefix p))),
    λ b. rw (add_hosts, four, large, L.valid_range_of_prefix p v, two) refl,
    λ a. (
      λ h. ((whole_range_iff N L R p v a).0 h, λ _ _. inr (inl ((==_iff p.bits 31).0 two))),
      λ h. (whole_range_iff N L R p v a).1 h.0,
    ),
  )
  whole_hosts p v four large (inr keeps) = (
    of_range (N.range_from (N.from (N.range_of_prefix p)) (N.to (N.range_of_prefix p))),
    λ b. elim (Bool-cases (p.bits == 31)) [
      | inl two ↦ rw (add_hosts, four, large, L.valid_range_of_prefix p v, two) refl
      | inr more ↦ rw (add_hosts, four, large, L.valid_range_of_prefix p v, more, keeps) refl
    ],
    λ a. (
      λ h. (
        (whole_range_iff N L R p v a).0 h,
        λ _ skips. cc (let q : true ≡ false = sym skips ∙ keeps in q),
      ),
      λ h. (whole_range_iff N L R p v a).1 h.0,
    ),
  )

  inner_hosts :
      (p : Prefix)
      → IsPrefix N p
      → is4 p.addr ≡ true
      → is_single_ip p ≡ false
      → (p.bits == 31) ≡ false
      → skip ≡ true
      → IsOneAddition p
  unfolding add_hosts
  inner_hosts p v four many more skips =
      let zone = zone_of_is4 p.addr.value p.addr.zone four in
      let not_single : p.bits ≢ 32 =
        λ e. (let q : (p.bits == 32) ≡ false = rw zone at many in ground arith) in
      let inner = inner_range_iff N L R p v zone not_single in
      (
        of_range (
            N.range_from (next (N.from (N.range_of_prefix p))) (prev (N.to (N.range_of_prefix p)))),
        λ b. rw (add_hosts, four, many, L.valid_range_of_prefix p v, more, skips) refl,
        λ a. (
          λ h.
              (let (same, low, high) = (inner a).0 h in
                ((same, omega arith, omega arith), λ _ _. inr (inr (low, high)))),
          λ h. elim (h.1 four skips) [
            | inl single ↦ absurd (not_single single)
            | inr rest ↦ elim rest [
              | inl two ↦ absurd (ground arith)
              | inr (low, high) ↦ (inner a).1 (h.0.0, low, high)
            ]
          ],
        ),
      )

  pub one_addition : (p : Prefix) → IsPrefix N p → IsOneAddition p
  one_addition p v = elim (Bool-cases (is4 p.addr)) [
    | inr six ↦ six_hosts p six
    | inl four ↦ elim (Bool-cases (is_single_ip p)) [
      | inl single ↦ elim (Bool-cases skip) [
        | inl skips ↦ single_hosts p v four skips single
        | inr keeps ↦ whole_hosts p v four (rw (single, keeps) refl) (inr keeps)
      ]
      | inr many ↦ elim (Bool-cases (p.bits == 31)) [
        | inl two ↦ whole_hosts p v four (rw many refl) (inl two)
        | inr more ↦ elim (Bool-cases skip) [
          | inl skips ↦ inner_hosts p v four many more skips
          | inr keeps ↦ whole_hosts p v four (rw many refl) (inr keeps)
        ]
      ]
    ]
  ]

  -- The whole loop, from a builder.
  all_additions :
      (ps : List Prefix) (b : N.IPSetBuilder)
      → All (IsPrefix N) ps
      → (xs : List (Addition N)) × (foldl (add_hosts N skip) b ps ≡ added_all N xs b)
        × ((a : Addr) → Any (Adds N a) xs ↔ Any (IsHost N skip a) ps)
  all_additions [] b vs = ([], refl, λ a. (λ h. h, λ h. h))
  all_additions (p ∷ ps) b (v, vs) =
      let (x, step, adds) = one_addition p v in
      let (xs, steps, meant) = all_additions ps (add_hosts N skip b p) vs in
      (
        x ∷ xs,
        steps ∙ ap (added_all N xs) (step b),
        λ a. (
          λ h. elim h [ inl here ↦ inl ((adds a).0 here) | inr m ↦ inr ((meant a).0 m) ],
          λ h. elim h [ inl here ↦ inl ((adds a).1 here) | inr m ↦ inr ((meant a).1 m) ],
        ),
      )

module _ (N : Netipx) (L : PrefixLaws N) (R : RangeLaws N) where
  -- A pool that is built from a list of CIDRs is built from the set of all their addresses, and has
  -- exactly the addresses that are kept of the prefixes that make up that set: of a prefix of IPv6
  -- all; of one of IPv4 all, but for the first and the last address if skip-end-ips-in-cidr is set
  -- and the prefix is neither a single address nor a /31.
  pub build_hosts_from_cidr-IsHost :
      (text : String) (c : Option KubevipLbConfig) (s : N.IPSet)
      → build_hosts_from_cidr N text c ≡ ok s
      → (whole : N.IPSet) × (parse_cidrs N text ≡ ok whole)
        × ((a : Addr)
            → (N.contains s a ≡ true) ↔ Any (IsHost N (skips_ends c) a) (N.prefixes whole))
  unfolding build_hosts_from_cidr
  build_hosts_from_cidr-IsHost text c s e =
      let (whole, parsed, built) =
        >>=-eq-ok (parse_cidrs N text)
          (λ pool. N.ip_set (foldl (add_hosts N (skips_ends c)) N.new_builder (N.prefixes pool)))
          e in
      let (xs, same, meant) =
        all_additions N L R (skips_ends c) (N.prefixes whole) N.new_builder
          (L.prefixes_valid whole) in
      (
        whole,
        parsed,
        λ a.
            let holds = L.built_contains xs s (ap N.ip_set (sym same) ∙ built) a in
            (λ h. (meant a).0 (holds.0 h), λ h. holds.1 ((meant a).1 h)),
      )

  every_prefix : (a : Addr) (ps : List Prefix) → Any (IsHost N false a) ps ↔ Any (InPrefix N a) ps
  every_prefix a [] = (λ h. h, λ h. h)
  every_prefix a (p ∷ ps) = (
    λ h. elim h [ inl here ↦ inl here.0 | inr m ↦ inr ((every_prefix a ps).0 m) ],
    λ h. elim h [
      | inl here ↦ inl (here, λ _ skips. cc skips)
      | inr m ↦ inr ((every_prefix a ps).1 m)
    ],
  )

  -- Without skip-end-ips-in-cidr, the pool of a list of CIDRs has an address exactly if one of the
  -- items of the list, between commas, is a CIDR that has it.
  pub build_hosts_from_cidr-IsCidrOf :
      (text : String) (c : Option KubevipLbConfig) (s : N.IPSet)
      → skips_ends c ≡ false
      → build_hosts_from_cidr N text c ≡ ok s
      → (a : Addr) → (N.contains s a ≡ true) ↔ Any (IsCidrOf N a) (split b',' text)
  build_hosts_from_cidr-IsCidrOf text c s keeps e a =
      let (whole, parsed, hosts) = build_hosts_from_cidr-IsHost text c s e in
      let kept : (N.contains s a ≡ true) ↔ Any (IsHost N false a) (N.prefixes whole) =
        subst (λ b. (N.contains s a ≡ true) ↔ Any (IsHost N b a) (N.prefixes whole)) keeps
          (hosts a) in
      let each = every_prefix a (N.prefixes whole) in
      let cover = L.prefixes_cover whole a in
      let items = parse_cidrs-IsCidrOf N L R text whole parsed a in
      (λ h. items.0 (cover.1 (each.0 (kept.0 h))), λ h. kept.1 (each.1 (cover.0 (items.1 h))))
