-- ===== src/Ipam/Manager/Stale.antt =====
-- The manager's entries, which have one pool but two texts, when a namespace changes its pool.
use text.Mathlib.TextPositions.{eq_refl}
use kube_vip_cloud_provider.Prelude.{
  String, ◌≡◌, ◌≢◌, true, false, Option, [], ◌∷◌, arith, str_eq, eq_iff, out_of_ips, ok,
}
use kube_vip_cloud_provider.Netipx.{Netipx}
use kube_vip_cloud_provider.Config.{KubevipLbConfig}
use kube_vip_cloud_provider.Ipam.AddressBuilder.{build_hosts_from_cidr, build_addresses_from_range}
use kube_vip_cloud_provider.Ipam.Manager.{
  IpManager, allocate, use_range, use_cidr, at_namespace, find_available_host_from_range,
  find_available_host_from_cidr,
}

module _ (N : Netipx) where
  -- The entry that a first call for a CIDR leaves.
  abbrev entry : String → String → String → N.IPSet → IpManager N
  entry namespace cidr ip_range pool = record {
    namespace = namespace;
    cidr = cidr;
    ip_range = ip_range;
    pool_ip_set = pool;
  }

  first_cidr :
      (namespace cidr : String) (q in_use : N.IPSet) (c : Option KubevipLbConfig)
      → build_hosts_from_cidr N cidr c ≡ ok q
      → (find_available_host_from_cidr N namespace cidr in_use c []).0
        ≡ entry namespace cidr "" q ∷ []
  unfolding find_available_host_from_cidr at_namespace
  first_cidr namespace cidr q in_use c e = rw (e, find_available_host_from_cidr, at_namespace)

  again_cidr :
      (namespace cidr ip_range : String) (q in_use : N.IPSet) (c : Option KubevipLbConfig)
      → (find_available_host_from_cidr N namespace cidr in_use c
          (entry namespace cidr ip_range q ∷ [])).1
        ≡ allocate N (out_of_ips namespace cidr true) in_use c q
  unfolding find_available_host_from_cidr at_namespace use_cidr
  again_cidr namespace cidr ip_range q in_use c = ground (arith, eq_refl namespace, eq_refl cidr)

  then_range :
      (namespace cidr ip_range : String) (q p in_use : N.IPSet) (c : Option KubevipLbConfig)
      → build_addresses_from_range N ip_range ≡ ok p
      → ip_range ≢ ""
      → (find_available_host_from_range N namespace ip_range in_use c
          (entry namespace cidr "" q ∷ [])).0
        ≡ entry namespace cidr ip_range p ∷ []
  unfolding find_available_host_from_range at_namespace use_range
  then_range namespace cidr ip_range q p in_use c e ne =
      let differs : str_eq "" ip_range ≡ false = ground (arith, eq_iff "" ip_range) in
      ground (arith, eq_refl namespace, differs, e)

  -- A namespace that is moved from a CIDR to a range and back is served from the range's pool after
  -- that, whatever the CIDR says: the CIDR's text never left the entry, so its pool is not rebuilt.
  pub cidr_after_range :
      (namespace cidr ip_range : String) (q p u v w : N.IPSet) (c : Option KubevipLbConfig)
      (d : Option KubevipLbConfig) (e : Option KubevipLbConfig)
      → build_hosts_from_cidr N cidr c ≡ ok q
      → build_addresses_from_range N ip_range ≡ ok p
      → ip_range ≢ ""
      → let one = (find_available_host_from_cidr N namespace cidr u c []).0 in
        let two = (find_available_host_from_range N namespace ip_range v d one).0 in
        (find_available_host_from_cidr N namespace cidr w e two).1
        ≡ allocate N (out_of_ips namespace cidr true) w e p
  cidr_after_range namespace cidr ip_range q p u v w c d e built range_built ne =
      rw
        (
          first_cidr namespace cidr q u c built,
          then_range namespace cidr ip_range q p v d range_built ne,
        )
        (again_cidr namespace cidr ip_range p w e)

  -- A change of `skip-end-ips-in-cidr` does not reach a namespace that has a pool for its CIDR: it is
  -- served from the pool that was built with the setting of its first call.
  pub skip_change_ignored :
      (namespace cidr : String) (q u v : N.IPSet) (c : Option KubevipLbConfig)
      (d : Option KubevipLbConfig)
      → build_hosts_from_cidr N cidr c ≡ ok q
      → let one = (find_available_host_from_cidr N namespace cidr u c []).0 in
        (find_available_host_from_cidr N namespace cidr v d one).1
        ≡ allocate N (out_of_ips namespace cidr true) v d q
  skip_change_ignored namespace cidr q u v c d built =
      rw (first_cidr namespace cidr q u c built) (again_cidr namespace cidr "" q v d)
