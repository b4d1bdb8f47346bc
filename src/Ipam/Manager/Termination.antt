-- ===== src/Ipam/Manager/Termination.antt =====
-- That the calls of pkg/ipam come back: building a pool and searching it.
use mathlib.Core.List.{foldl}
use kube_vip_cloud_provider.Prelude.{
  String, subst, inl, inr, Bool, Option, List, [], ◌∷◌, split, Ends, err-Ends, >>=-Ends, out_of_ips,
  ok,
}
use kube_vip_cloud_provider.Netip.Parse.{parse_addr, parse_prefix}
use kube_vip_cloud_provider.Netip.Errors.{parse_addr-Ends, parse_prefix-Ends}
use kube_vip_cloud_provider.Netipx.{Netipx, SetLaws}
use kube_vip_cloud_provider.Config.{KubevipLbConfig}
use kube_vip_cloud_provider.Ipam.AddressBuilder.{
  build_hosts_from_cidr, build_addresses_from_range, parse_cidrs, add_prefixes, add_ranges,
  item_range, read_ends, add_hosts, skips_ends,
}
use kube_vip_cloud_provider.Ipam.Families.{
  split_cidrs_by_ip_family, split_ranges_by_ip_family, no_pools, add_cidr, add_ip_range,
}
use kube_vip_cloud_provider.Ipam.Manager.{
  IpManager, allocate, find_available_host_from_range, find_available_host_from_cidr,
}
use kube_vip_cloud_provider.Ipam.Manager.Allocation.{allocate-Allocates}
use kube_vip_cloud_provider.Ipam.Manager.Outcomes.{range-outcome, cidr-outcome}

ok-Ends : {A : Type 0} (a : A) → Ends (ok a)
ok-Ends a h = cc

read_ends-Ends : (item : String) (pieces : List String) → Ends (read_ends item pieces)
read_ends-Ends item [] = λ h. cc
read_ends-Ends item (a ∷ []) = λ h. cc
read_ends-Ends item (a ∷ b ∷ []) =
    >>=-Ends (parse_addr a) _ (parse_addr-Ends a)
      (λ start. >>=-Ends (parse_addr b) _ (parse_addr-Ends b) (λ end. ok-Ends (start, end)))
read_ends-Ends item (a ∷ b ∷ c ∷ rest) = λ h. cc

module _ (N : Netipx) (builds : (b : N.IPSetBuilder) → Ends (N.ip_set b)) where
  add_prefixes-Ends : (cidrs : List String) (b : N.IPSetBuilder) → Ends (add_prefixes N cidrs b)
  unfolding add_prefixes
  add_prefixes-Ends [] b = ok-Ends b
  add_prefixes-Ends (c ∷ cidrs) b =
      >>=-Ends (parse_prefix c) _ (parse_prefix-Ends c)
        (λ p. add_prefixes-Ends cidrs (N.add_prefix b p))

  add_ranges-Ends : (items : List String) (b : N.IPSetBuilder) → Ends (add_ranges N items b)
  unfolding add_ranges item_range
  add_ranges-Ends [] b = ok-Ends b
  add_ranges-Ends (item ∷ items) b =
      >>=-Ends (item_range item) _ (read_ends-Ends item (split b'-' item))
        (λ ends. add_ranges-Ends items (N.add_range b (N.range_from ends.0 ends.1)))

  parse_cidrs-Ends : (cidr : String) → Ends (parse_cidrs N cidr)
  unfolding parse_cidrs
  parse_cidrs-Ends cidr =
      >>=-Ends (add_prefixes N (split b',' cidr) N.new_builder) _ (add_prefixes-Ends _ _) builds

  build_hosts_from_cidr-Ends :
      (cidr : String) (c : Option KubevipLbConfig) → Ends (build_hosts_from_cidr N cidr c)
  unfolding build_hosts_from_cidr
  build_hosts_from_cidr-Ends cidr c =
      >>=-Ends (parse_cidrs N cidr) _ (parse_cidrs-Ends cidr)
        (λ pool. builds (foldl (add_hosts N (skips_ends c)) N.new_builder (N.prefixes pool)))

  build_addresses_from_range-Ends : (ranges : String) → Ends (build_addresses_from_range N ranges)
  unfolding build_addresses_from_range
  build_addresses_from_range-Ends ranges =
      >>=-Ends (add_ranges N (split b',' ranges) N.new_builder) _ (add_ranges-Ends _ _) builds

  -- Splitting a pool by family returns.
  pub split_cidrs-Ends : (cidrs : String) → Ends (split_cidrs_by_ip_family N cidrs)
  unfolding split_cidrs_by_ip_family
  split_cidrs-Ends cidrs =
      >>=-Ends (parse_cidrs N cidrs) _ (parse_cidrs-Ends cidrs)
        (λ pool. ok-Ends (foldl add_cidr no_pools (N.prefixes pool)))

  pub split_ranges-Ends : (ranges : String) → Ends (split_ranges_by_ip_family N ranges)
  unfolding split_ranges_by_ip_family
  split_ranges-Ends ranges =
      >>=-Ends (build_addresses_from_range N ranges) _ (build_addresses_from_range-Ends ranges)
        (λ pool. ok-Ends (foldl (add_ip_range N) no_pools (N.ranges pool)))

  module _ (L : SetLaws N) (in_use : N.IPSet) (c : Option KubevipLbConfig) where
    allocate-Ends :
        (namespace text : String) (is_cidr : Bool) (pool : N.IPSet)
        → Ends (allocate N (out_of_ips namespace text is_cidr) in_use c pool)
    allocate-Ends namespace text is_cidr pool =
        elim (allocate-Allocates N L (out_of_ips namespace text is_cidr) in_use c pool) [
          | inl (ip, e, _, _) ↦ rw e (λ h. cc)
          | inr (e, _) ↦ rw e (λ h. cc)
        ]

    -- A lookup returns, whatever pools the manager keeps.
    pub range-Ends :
        (namespace pool : String) (ms : List (IpManager N))
        → Ends (find_available_host_from_range N namespace pool in_use c ms).1
    range-Ends namespace pool ms =
        range-outcome N Ends in_use c allocate-Ends namespace pool
          (λ e built. err-Ends (subst Ends built (build_addresses_from_range-Ends pool))) ms

    pub cidr-Ends :
        (namespace pool : String) (ms : List (IpManager N))
        → Ends (find_available_host_from_cidr N namespace pool in_use c ms).1
    cidr-Ends namespace pool ms =
        cidr-outcome N Ends in_use c allocate-Ends namespace pool
          (λ e built. err-Ends (subst Ends built (build_hosts_from_cidr-Ends pool c))) ms
