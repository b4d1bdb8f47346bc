-- ===== src/Provider/Vips/FromRange.antt =====
-- What discoverVIPs of pkg/provider/loadBalancer.go gives a service of IPv4 from a pool of ranges:
-- the split of the pool, the manager and the search together.
use kube_vip_cloud_provider.Ipam.Manager.{allocate}
use kube_vip_cloud_provider.Ipam.Families.Reread.{
  split_ranges_is_no_cidr, split_ranges_by_ip_family-reread,
}
use kube_vip_cloud_provider.Ipam.AddressBuilder.{build_addresses_from_range, skips_ends}
use kube_vip_cloud_provider.Ipam.FreeAddress.{descending}
use kube_vip_cloud_provider.Ipam.Manager.Cache.{
  IsCoherent, call_host-IsCoherent, call_host-IsCoherent, IsCoherent,
}
use kube_vip_cloud_provider.Ipam.Manager.Allocation.{allocate-Allocates, Allocates}
use kube_vip_cloud_provider.Ipam.FreeAddress.Order.{Precedes}
use kube_vip_cloud_provider.Ipam.FreeAddress.Extreme.{IsFree}
use kube_vip_cloud_provider.Netip.Print.{addr_string}
use kube_vip_cloud_provider.Netip.{z4, Addr}
use kube_vip_cloud_provider.Prelude.{
  String, ◌≡◌, refl, sym, ap, ◌∙◌, subst, ◌↔◌, ◌⊎◌, inl, inr, true, false, Option, none, some, List,
  arith, str_eq, eq_iff, Bool-cases, contains_byte, is_empty, All, Result, ◌>>=◌, out_of_ips, err,
  ok,
}
use kube_vip_cloud_provider.Netipx.{RangeLaws, SetLaws, Netipx}
use kube_vip_cloud_provider.Kube.{
  IpFamily, IpFamilyPolicy, single_stack, prefer_dual_stack, require_dual_stack, other_policy,
}
use kube_vip_cloud_provider.Ipam.Families.{Pools, split_ranges_by_ip_family}
use kube_vip_cloud_provider.Ipam.Manager.Calls.{fresh_host, Kind, of_range, Call, call_host}
use kube_vip_cloud_provider.Provider.Vips.{
  Request, Managers, discover_address, discover_vips, dhcp_pool, single_pool,
  discover_vips_single_stack, by_policy, takes_preferred, ipv6_first, no_families,
}

-- The policy of a service of a single stack.
abbrev pub OneStack : Option IpFamilyPolicy → Type 0
OneStack none = Unit {0}
OneStack (some single_stack) = Unit {0}
OneStack (some _) = ⊥

slash_in_dhcp : (pool : String) → contains_byte 47 pool ≡ false → str_eq pool dhcp_pool ≡ false
unfolding contains_byte
slash_in_dhcp pool h = elim (Bool-cases (str_eq pool dhcp_pool)) [
  | inr e ↦ e
  | inl e ↦ absurd (
      cc (
        let q : true ≡ false =
          subst (λ p. contains_byte 47 p ≡ false) ((eq_iff pool dhcp_pool).0 e) h in
        q))
]

ipv4_single_pool :
    (pools : Pools) (families : List IpFamily)
    → is_empty pools.ipv4 ≡ false
    → ipv6_first families ≡ false
    → single_pool pools families ≡ pools.ipv4
unfolding single_pool
ipv4_single_pool pools families v4 first = elim (Bool-cases (no_families families)) [
  | inl e ↦ rw (single_pool, e, v4) refl
  | inr e ↦ rw (single_pool, e, first) refl
]

module _ (N : Netipx) (req : Request N) where
  -- An IPv4 address of the set that is not in use and that is no network or broadcast address.
  abbrev pub IsFreeIpv4 : N.IPSet → Addr → Type 0
  IsFreeIpv4 s x = (x.zone ≡ z4) × IsFree N s req.in_use x

  -- The text of the first such address in the order of the search, or the error that the pool is
  -- exhausted if there is none.
  abbrev pub GivesFirst : N.IPSet → String → Result String → Type 0
  GivesFirst s pool r =
      ((ip : Addr) × (r ≡ ok (addr_string ip))
        × IsFreeIpv4 s ip
        × ((x : Addr) → IsFreeIpv4 s x → (x ≡ ip) ⊎ Precedes (descending req.config) ip x))
      ⊎ ((r ≡ err (out_of_ips req.namespace pool false)) × ((x : Addr) → ¬ IsFreeIpv4 s x))

  allocated_first :
      (s again : N.IPSet) (pool : String) (r : Result String)
      → ((a : Addr) → (N.contains again a ≡ true) ↔ ((N.contains s a ≡ true) × (a.zone ≡ z4)))
      → Allocates N (out_of_ips req.namespace pool false) req.in_use req.config again r
      → GivesFirst s pool r
  allocated_first s again pool r same (inl (ip, e, (here, free, ordinary), first)) =
      let (m, z) = (same ip).0 here in
      inl (
        ip,
        e,
        (z, (m, free, ordinary)),
        λ x (z', (m', free', ordinary')). first x ((same x).1 (m', z'), free', ordinary'),
      )
  allocated_first s again pool r same (inr (e, none_)) =
      inr (e, λ x (z, (m, free, ordinary)). none_ x ((same x).1 (m, z), free, ordinary))

  by_policy-OneStack :
      (policy : Option IpFamilyPolicy) (families : List IpFamily) (ms : Managers N) (pools : Pools)
      → OneStack policy
      → by_policy N req policy families ms pools
        ≡ discover_vips_single_stack N req pools families ms
  by_policy-OneStack none families ms pools h = refl
  by_policy-OneStack (some single_stack) families ms pools h = refl
  by_policy-OneStack (some prefer_dual_stack) families ms pools h = absurd h
  by_policy-OneStack (some require_dual_stack) families ms pools h = absurd h
  by_policy-OneStack (some (other_policy _)) families ms pools h = absurd h

  -- The call of the manager that the search comes to.
  abbrev call_for : String → Call N
  call_for pool = record {
    kind = of_range;
    namespace = req.namespace;
    pool = pool;
    in_use = req.in_use;
    config = req.config;
  }

  search_in_range :
      (pool : String) (pools : Pools) (policy : Option IpFamilyPolicy) (families : List IpFamily)
      (ms : Managers N)
      → OneStack policy
      → is_empty pool ≡ false
      → contains_byte 47 pool ≡ false
      → split_ranges_by_ip_family N pool ≡ ok pools
      → is_empty pools.ipv4 ≡ false
      → contains_byte 47 pools.ipv4 ≡ false
      → ipv6_first families ≡ false
      → is_empty req.preferred_ipv4 ≡ true
      → (discover_vips N req pool policy families ms).1 ≡ (call_host N ms (call_for pools.ipv4)).1
  unfolding discover_vips discover_vips_single_stack discover_address call_host
  search_in_range pool pools policy families ms one given range cut v4 range4 first fresh =
      let not_dhcp = slash_in_dhcp pool range in
      let not_dhcp4 = slash_in_dhcp pools.ipv4 range4 in
      let at = ipv4_single_pool pools families v4 first in
      let own : takes_preferred N req pools pools.ipv4 ≡ false = ground arith in
      rw
        (
          discover_vips,
          not_dhcp,
          given,
          range,
          cut,
          by_policy-OneStack policy families ms pools one,
          discover_vips_single_stack,
          at,
          v4,
          own,
          discover_address,
          not_dhcp4,
          range4,
        )
        refl

module _ (N : Netipx) (kind_of : String → Kind) (req : Request N) where
  module _ (L : SetLaws N) (R : RangeLaws N) where
    -- A service of a single stack whose first family is not IPv6, whose namespace has a pool of
    -- ranges with an IPv4 address in it, and for which no shared address is preferred: it gets the
    -- first free IPv4 address of the pool in the order of the search, or the error that the pool is
    -- exhausted exactly if none is free, from any manager whose pools are up to date.
    pub discover_vips-GivesFirst :
        (pool : String) (pools : Pools) (policy : Option IpFamilyPolicy) (families : List IpFamily)
        (ms : Managers N)
        → All (IsCoherent N kind_of (skips_ends req.config)) ms
        → of_range ≡ kind_of req.namespace
        → OneStack policy
        → ipv6_first families ≡ false
        → is_empty req.preferred_ipv4 ≡ true
        → is_empty pool ≡ false
        → contains_byte b'/' pool ≡ false
        → split_ranges_by_ip_family N pool ≡ ok pools
        → is_empty pools.ipv4 ≡ false
        → (s : N.IPSet) × (build_addresses_from_range N pool ≡ ok s)
          × GivesFirst N req s pools.ipv4 (discover_vips N req pool policy families ms).1
    unfolding fresh_host
    discover_vips-GivesFirst pool pools policy families ms good ranged one first fresh given range
          cut v4 =
        let (s, again, parsed, built, same) =
          split_ranges_by_ip_family-reread N R L pool pools cut v4 in
        let searched =
          search_in_range N req pool pools policy families ms one given range cut v4
            (split_ranges_is_no_cidr N L pool pools cut) first fresh in
        let kept =
          (call_host-IsCoherent N kind_of (skips_ends req.config) ms (call_for N req pools.ipv4)
            good (ranged, refl)).0 in
        let failure = out_of_ips req.namespace pools.ipv4 false in
        let answer : (discover_vips N req pool policy families ms).1
            ≡ allocate N failure req.in_use req.config again =
          searched ∙ kept ∙ ap (λ r. r >>= allocate N failure req.in_use req.config) built in
        (
          s,
          parsed,
          subst (GivesFirst N req s pools.ipv4) (sym answer) (
              allocated_first N req s again pools.ipv4 _ same
                (allocate-Allocates N L failure req.in_use req.config again)),
        )
