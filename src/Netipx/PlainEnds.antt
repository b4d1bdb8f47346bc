-- ===== src/Netipx/PlainEnds.antt =====
-- The ends of the ranges that IPRangeFrom makes of addresses with no zone.
use kube_vip_cloud_provider.Prelude.{◌≡◌, ◌∙◌, ◌⊎◌}
use kube_vip_cloud_provider.Netip.{Addr, z4, z6noz}
use kube_vip_cloud_provider.Netip.Equality.{without_zone_same}
use kube_vip_cloud_provider.Netipx.{Netipx, RangeLaws}

module _ (N : Netipx) (R : RangeLaws N) (a b : Addr) where
  pub kept_from : (a.zone ≡ z4) ⊎ (a.zone ≡ z6noz) → N.from (N.range_from a b) ≡ a
  kept_from h = R.from_range_from a b ∙ without_zone_same a h

  pub kept_to : (b.zone ≡ z4) ⊎ (b.zone ≡ z6noz) → N.to (N.range_from a b) ≡ b
  kept_to h = R.to_range_from a b ∙ without_zone_same b h
