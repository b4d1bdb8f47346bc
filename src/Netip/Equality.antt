-- ===== src/Netip/Equality.antt =====
-- Equality of addresses and of their families.
use text.Mathlib.TextPositions.{eq_refl}
use kube_vip_cloud_provider.Prelude.{◌≡◌, refl, ap, true, arith, eq_iff, ◌⊎◌, inl, inr}
use kube_vip_cloud_provider.Netip.{
  Addr, Zone, z0, z4, z6noz, z6, zone_eq, addr_eq, plain, without_zone,
}

pub zone_eq_refl : (z : Zone) → zone_eq z z ≡ true
zone_eq_refl z0 = refl
zone_eq_refl z4 = refl
zone_eq_refl z6noz = refl
zone_eq_refl (z6 s) = eq_refl s

pub eq_of_zone_eq : (z w : Zone) → zone_eq z w ≡ true → z ≡ w
eq_of_zone_eq z0 z0 h = refl
eq_of_zone_eq z4 z4 h = refl
eq_of_zone_eq z6noz z6noz h = refl
eq_of_zone_eq (z6 s) (z6 t) h = ap z6 ((eq_iff s t).0 h)
eq_of_zone_eq z0 z4 h = cc
eq_of_zone_eq z0 z6noz h = cc
eq_of_zone_eq z0 (z6 t) h = cc
eq_of_zone_eq z4 z0 h = cc
eq_of_zone_eq z4 z6noz h = cc
eq_of_zone_eq z4 (z6 t) h = cc
eq_of_zone_eq z6noz z0 h = cc
eq_of_zone_eq z6noz z4 h = cc
eq_of_zone_eq z6noz (z6 t) h = cc
eq_of_zone_eq (z6 s) z0 h = cc
eq_of_zone_eq (z6 s) z4 h = cc
eq_of_zone_eq (z6 s) z6noz h = cc

-- An address of one of the families with no zone.
pub plain_zone : (z : Zone) → (z ≡ z4) ⊎ (z ≡ z6noz) → plain z ≡ z
plain_zone z (inl e) = rw e refl
plain_zone z (inr e) = rw e refl

pub without_zone_same : (a : Addr) → (a.zone ≡ z4) ⊎ (a.zone ≡ z6noz) → without_zone a ≡ a
without_zone_same a h = ap (λ z. record a { zone = z }) (plain_zone a.zone h)

pub addr_eq_refl : (a : Addr) → addr_eq a a ≡ true
unfolding addr_eq
addr_eq_refl a = ground (arith, zone_eq_refl a.zone)

pub eq_of_addr_eq : (a b : Addr) → addr_eq a b ≡ true → a ≡ b
unfolding addr_eq
eq_of_addr_eq a b h = ground (arith, eq_of_zone_eq a.zone b.zone)
