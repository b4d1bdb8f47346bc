-- ===== src/Netip/Errors.antt =====
-- The errors of netip.ParseAddr and netip.ParsePrefix.
use kube_vip_cloud_provider.Prelude.{
  String, ◌≡◌, refl, not, ◌||◌, Option, none, some, arith, if◌then◌else◌, is_empty, Ends, >>=-Ends,
  foreign, err,
}
use kube_vip_cloud_provider.Netip.{Addr}
use kube_vip_cloud_provider.Netip.Parse.{
  split_slash, has_zone, leading_ok, prefix_of, parse_addr, parse_prefix,
}

pub parse_addr-Ends : (s : String) → Ends (parse_addr s)
unfolding parse_addr
parse_addr-Ends s = ground arith

prefix_of-Ends :
    (s bits : String) (a : Addr)
    → Ends (
        if has_zone a
        then err (foreign s)
        else if not (leading_ok bits) || is_empty bits
        then err (foreign s)
        else prefix_of a bits)
prefix_of-Ends s bits a = ground arith

parts-Ends : (s : String) (o : Option (String × String)) → split_slash s ≡ o → Ends (parse_prefix s)
unfolding parse_prefix
parts-Ends s none e = rw (parse_prefix, e) (λ h. cc)
parts-Ends s (some (front, bits)) e =
    rw (parse_prefix, e)
      (>>=-Ends (parse_addr front) _ (parse_addr-Ends front) (prefix_of-Ends s bits))

pub parse_prefix-Ends : (s : String) → Ends (parse_prefix s)
parse_prefix-Ends s = parts-Ends s (split_slash s) refl
