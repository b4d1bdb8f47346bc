-- ===== src/Ipam/Families/Joined.antt =====
-- The texts that the two string builders of pkg/ipam/addressbuilder.go end with.
use Prim.Native.String.{◌++◌ as append}
use text.Mathlib.TextLemmas.{append_assoc, nil-append}
use mathlib.Core.List.{foldl}
use kube_vip_cloud_provider.Prelude.{
  String, ◌≡◌, refl, sym, ap, ◌∙◌, Bool, true, false, List, [], ◌∷◌, is_empty, join, All, >>=-eq-ok,
  ok, char_front, is_empty-append,
}
use kube_vip_cloud_provider.Netip.{Prefix, is6}
use kube_vip_cloud_provider.Netip.Print.{addr_string, prefix_string}
use kube_vip_cloud_provider.Netipx.{Netipx}
use kube_vip_cloud_provider.Ipam.AddressBuilder.{parse_cidrs, build_addresses_from_range}
use kube_vip_cloud_provider.Ipam.Families.{
  Pools, no_pools, write_entry, write_to_family, add_cidr, add_ip_range, split_cidrs_by_ip_family,
  split_ranges_by_ip_family,
}

-- What a builder has after the entries are written to it.
abbrev after_entries : String → List String → String
after_entries b [] = b
after_entries b (e ∷ es) = after_entries (write_entry b e) es

abbrev NotEmpty : String → Type 0
NotEmpty s = is_empty s ≡ false

join_glue :
    (s e : String) (es : List String) → join "," (append s e ∷ es) ≡ append s (join "," (e ∷ es))
unfolding join
join_glue s e [] = refl
join_glue s e (t ∷ es) = append_assoc s e (append "," (join "," (t ∷ es)))

after_first :
    (b : String) (es : List String)
    → NotEmpty b
    → All NotEmpty es
    → after_entries b es ≡ join "," (b ∷ es)
unfolding join
after_first b [] h hs = refl
after_first b (e ∷ es) h hs =
    let entry : write_entry b e ≡ append (append b ",") e = rw h refl in
    ap (λ s. after_entries s es) entry
    ∙ after_first (append (append b ",") e) es (is_empty-append (append b ",") e hs.0) hs.1
    ∙ join_glue (append b ",") e es
    ∙ append_assoc b "," (join "," (e ∷ es))

after_none : (es : List String) → All NotEmpty es → after_entries "" es ≡ join "," es
unfolding join
after_none [] hs = refl
after_none (e ∷ es) hs = ap (λ s. after_entries s es) (nil-append e) ∙ after_first e es hs.0 hs.1

-- The text in front, if the entry is of the family.
abbrev pub picked : Bool → Bool → String → List String → List String
picked false false text rest = text ∷ rest
picked true true text rest = text ∷ rest
picked _ _ text rest = rest

module _ {A : Type 0} (is_v6 : A → Bool) (text : A → String) where
  -- The texts of the entries of one family, in their order.
  abbrev pub texts_of : Bool → List A → List String
  texts_of v6 [] = []
  texts_of v6 (x ∷ xs) = picked v6 (is_v6 x) (text x) (texts_of v6 xs)

  abbrev written : Pools → List A → Pools
  written pools xs = foldl (λ p x. write_to_family (is_v6 x) p (text x)) pools xs

  abbrev Writes : List A → Pools → Type 0
  Writes xs pools =
      ((written pools xs).ipv4 ≡ after_entries pools.ipv4 (texts_of false xs))
      × ((written pools xs).ipv6 ≡ after_entries pools.ipv6 (texts_of true xs))

  written_one :
      (b : Bool) (x : A) (xs : List A) (pools : Pools)
      → ((p : Pools) → Writes xs p)
      → let new = written (write_to_family b pools (text x)) xs in
        (new.ipv4 ≡ after_entries pools.ipv4 (picked false b (text x) (texts_of false xs)))
        × (new.ipv6 ≡ after_entries pools.ipv6 (picked true b (text x) (texts_of true xs)))
  written_one true x xs pools h = h (write_to_family true pools (text x))
  written_one false x xs pools h = h (write_to_family false pools (text x))

  written-Writes : (xs : List A) (pools : Pools) → Writes xs pools
  written-Writes [] pools = (refl, refl)
  written-Writes (x ∷ xs) pools = written_one (is_v6 x) x xs pools (written-Writes xs)

  picked-All :
      (v6 b : Bool) (x : A) (rest : List String)
      → NotEmpty (text x)
      → All NotEmpty rest
      → All NotEmpty (picked v6 b (text x) rest)
  picked-All false false x rest h hs = (h, hs)
  picked-All true true x rest h hs = (h, hs)
  picked-All true false x rest h hs = hs
  picked-All false true x rest h hs = hs

  texts_of-All :
      (v6 : Bool) (xs : List A) → ((x : A) → NotEmpty (text x)) → All NotEmpty (texts_of v6 xs)
  texts_of-All v6 [] h = tt
  texts_of-All v6 (x ∷ xs) h = picked-All v6 (is_v6 x) x _ (h x) (texts_of-All v6 xs h)

  written-join :
      (xs : List A)
      → ((x : A) → NotEmpty (text x))
      → ((written no_pools xs).ipv4 ≡ join "," (texts_of false xs))
        × ((written no_pools xs).ipv6 ≡ join "," (texts_of true xs))
  written-join xs h =
      let (four, six) = written-Writes xs no_pools in
      (
        four ∙ after_none (texts_of false xs) (texts_of-All false xs h),
        six ∙ after_none (texts_of true xs) (texts_of-All true xs h),
      )

prefix_string-NotEmpty : (p : Prefix) → NotEmpty (prefix_string p)
unfolding prefix_string
prefix_string-NotEmpty p = is_empty-append (addr_string p.addr) _ (rw (char_front "/" _) refl)

module _ (N : Netipx) where
  -- The text of a range.
  abbrev pub range_text : N.IPRange → String
  range_text r = append (addr_string (N.from r)) (append "-" (addr_string (N.to r)))

  range_text-NotEmpty : (r : N.IPRange) → NotEmpty (range_text r)
  range_text-NotEmpty r = is_empty-append (addr_string (N.from r)) _ (rw (char_front "-" _) refl)

  -- SplitCIDRsByIPFamily returns, for each family, the prefixes of the family that make up the set
  -- of the CIDRs, in their order and with commas between them.
  pub split_cidrs_by_ip_family-join :
      (text : String) (pools : Pools)
      → split_cidrs_by_ip_family N text ≡ ok pools
      → (s : N.IPSet) × (parse_cidrs N text ≡ ok s)
        × (pools.ipv4 ≡ join "," (texts_of (λ p. is6 p.addr) prefix_string false (N.prefixes s)))
        × (pools.ipv6 ≡ join "," (texts_of (λ p. is6 p.addr) prefix_string true (N.prefixes s)))
  unfolding split_cidrs_by_ip_family add_cidr
  split_cidrs_by_ip_family-join text pools e =
      let (s, parsed, made) =
        >>=-eq-ok (parse_cidrs N text) (λ pool. ok (foldl add_cidr no_pools (N.prefixes pool))) e in
      let same : foldl add_cidr no_pools (N.prefixes s) ≡ pools = cc in
      let (four, six) =
        written-join (λ p. is6 p.addr) prefix_string (N.prefixes s) prefix_string-NotEmpty in
      (s, parsed, ap (λ p. p.ipv4) (sym same) ∙ four, ap (λ p. p.ipv6) (sym same) ∙ six)

  -- SplitRangesByIPFamily returns, for each family, the ranges of the family that make up the set of
  -- the text, in their order and with commas between them.
  pub split_ranges_by_ip_family-join :
      (text : String) (pools : Pools)
      → split_ranges_by_ip_family N text ≡ ok pools
      → (s : N.IPSet) × (build_addresses_from_range N text ≡ ok s)
        × (pools.ipv4 ≡ join "," (texts_of (λ r. is6 (N.from r)) range_text false (N.ranges s)))
        × (pools.ipv6 ≡ join "," (texts_of (λ r. is6 (N.from r)) range_text true (N.ranges s)))
  unfolding split_ranges_by_ip_family add_ip_range
  split_ranges_by_ip_family-join text pools e =
      let (s, parsed, made) =
        >>=-eq-ok (build_addresses_from_range N text)
          (λ pool. ok (foldl (add_ip_range N) no_pools (N.ranges pool))) e in
      let same : foldl (add_ip_range N) no_pools (N.ranges s) ≡ pools = cc in
      let (four, six) =
        written-join (λ r. is6 (N.from r)) range_text (N.ranges s) range_text-NotEmpty in
      (s, parsed, ap (λ p. p.ipv4) (sym same) ∙ four, ap (λ p. p.ipv6) (sym same) ∙ six)
