-- ===== src/Ipam/Manager/Keeps.antt =====
-- What a call does to the entry of its namespace, if the entry's pool is that of its text.
use kube_vip_cloud_provider.Prelude.{
  String, ◌≡◌, refl, sym, ◌∙◌, subst, inl, inr, Bool, true, false, Option, str_eq, eq_iff,
  Bool-cases, ◌>>=◌, Result-cases, out_of_ips, ok,
}
use kube_vip_cloud_provider.Netipx.{Netipx}
use kube_vip_cloud_provider.Config.{KubevipLbConfig}
use kube_vip_cloud_provider.Ipam.AddressBuilder.{
  build_hosts_from_cidr, build_addresses_from_range, skips_ends,
}
use kube_vip_cloud_provider.Ipam.Manager.{IpManager, allocate, use_range, use_cidr}

module _ (N : Netipx) where
  pub build_hosts_from_cidr-skips :
      (cidr : String) (c d : Option KubevipLbConfig)
      → skips_ends c ≡ skips_ends d
      → build_hosts_from_cidr N cidr c ≡ build_hosts_from_cidr N cidr d
  unfolding build_hosts_from_cidr
  build_hosts_from_cidr-skips cidr c d e = rw e

  -- With the pool of its text, an entry serves a range as a new pool does, and keeps such a pool.
  pub use_range-keeps :
      (namespace pool : String) (in_use : N.IPSet) (c : Option KubevipLbConfig) (m : IpManager N)
      → build_addresses_from_range N m.ip_range ≡ ok m.pool_ip_set
      → let u = use_range N namespace pool in_use c m in
        (u.1 ≡ (
          build_addresses_from_range N pool
          >>= allocate N (out_of_ips namespace pool false) in_use c))
        × (build_addresses_from_range N u.0.ip_range ≡ ok u.0.pool_ip_set)
        × (u.0.namespace ≡ m.namespace)
  unfolding use_range
  use_range-keeps namespace pool in_use c m h = elim (Bool-cases (str_eq m.ip_range pool)) [
    | inl same ↦
        let built : build_addresses_from_range N pool ≡ ok m.pool_ip_set =
          subst (λ t. build_addresses_from_range N t ≡ ok m.pool_ip_set)
            ((eq_iff m.ip_range pool).0 same) h in
        rw (same, built) (refl, h, refl)
    | inr differs ↦ elim (Result-cases (build_addresses_from_range N pool)) [
      | inl (set, e) ↦ rw (differs, e) (refl, e, refl)
      | inr (failure, e) ↦ rw (differs, e) (refl, h, refl)
    ]
  ]

  pub use_cidr-keeps :
      (skip : Bool) (namespace pool : String) (in_use : N.IPSet) (c : Option KubevipLbConfig)
      (m : IpManager N)
      → skips_ends c ≡ skip
      → ((d : Option KubevipLbConfig)
          → skips_ends d ≡ skip
          → build_hosts_from_cidr N m.cidr d ≡ ok m.pool_ip_set)
      → let u = use_cidr N namespace pool in_use c m in
        (u.1 ≡ (
          build_hosts_from_cidr N pool c >>= allocate N (out_of_ips namespace pool true) in_use c))
        × ((d : Option KubevipLbConfig)
            → skips_ends d ≡ skip
            → build_hosts_from_cidr N u.0.cidr d ≡ ok u.0.pool_ip_set)
        × (u.0.namespace ≡ m.namespace)
  unfolding use_cidr
  use_cidr-keeps skip namespace pool in_use c m now h = elim (Bool-cases (str_eq m.cidr pool)) [
    | inl same ↦
        let built : build_hosts_from_cidr N pool c ≡ ok m.pool_ip_set =
          subst (λ t. build_hosts_from_cidr N t c ≡ ok m.pool_ip_set) ((eq_iff m.cidr pool).0 same)
            (h c now) in
        rw (same, built) (refl, h, refl)
    | inr differs ↦ elim (Result-cases (build_hosts_from_cidr N pool c)) [
      | inl (set, e) ↦
          rw (differs, e)
            (refl, (λ d k. build_hosts_from_cidr-skips pool d c (k ∙ sym now) ∙ e), refl)
      | inr (failure, e) ↦ rw (differs, e) (refl, h, refl)
    ]
  ]
