-- ===== src/Netip/Tests.antt =====
-- Texts of addresses, read and printed.
use kube_vip_cloud_provider.Prelude.{String, ◌≡◌, refl, Result, ◌>>=◌, foreign, ok, err}
use kube_vip_cloud_provider.Netip.Parse.{parse_addr, parse_prefix}
use kube_vip_cloud_provider.Netip.Print.{addr_string, prefix_string}

abbrev shown : String → Result String
unfolding parse_addr addr_string
shown s = do a ← parse_addr s; ok (addr_string a)

abbrev shown_prefix : String → Result String
unfolding parse_prefix prefix_string
shown_prefix s = do p ← parse_prefix s; ok (prefix_string p)

v4_shown : shown "192.168.0.10" ≡ ok "192.168.0.10"
unfolding parse_addr addr_string
v4_shown = refl

v4_bad :
    (shown "192.168.0.256" ≡ err (foreign "192.168.0.256"))
    × (shown "192.168.00.1" ≡ err (foreign "192.168.00.1"))
    × (shown "1.2.3" ≡ err (foreign "1.2.3"))
    × (shown "1.2.3.4." ≡ err (foreign "1.2.3.4."))
unfolding parse_addr addr_string
v4_bad = (refl, refl, refl, refl)

v6_shown :
    (shown "fe80::1:3" ≡ ok "fe80::1:3")
    × (shown "::" ≡ ok "::")
    × (shown "2001:0DB8:0:0:1:0:0:1" ≡ ok "2001:db8::1:0:0:1")
    × (shown "::ffff:10.0.0.1" ≡ ok "::ffff:10.0.0.1")
    × (shown "1:2:3:4:5:6:7::" ≡ ok "1:2:3:4:5:6:7:0")
    × (shown "fe80::1%eth0" ≡ ok "fe80::1%eth0")
    × (shown "1::2::3" ≡ err (foreign "1::2::3"))
unfolding parse_addr addr_string
v6_shown = (refl, refl, refl, refl, refl, refl, refl)

prefixes_shown :
    (shown_prefix "192.168.0.200/29" ≡ ok "192.168.0.200/29")
    × (shown_prefix "2001::10/127" ≡ ok "2001::10/127")
    × (shown_prefix "10.0.0.0/33" ≡ err (foreign "33"))
    × (shown_prefix "10.0.0.0/08" ≡ err (foreign "10.0.0.0/08"))
unfolding parse_prefix prefix_string
prefixes_shown = (refl, refl, refl, refl)
