-- ===== src/Provider/Sharing/Ports.antt =====
-- The port map of the services that are implemented: what each service leaves in it.
use kube_vip_cloud_provider.Prelude.{
  ℕ, String, ◌≡◌, refl, sym, ◌∙◌, subst, ◌≢◌, ◌⊎◌, inl, inr, Bool, true, ◌&&◌, Option, none, some,
  List, [], ◌∷◌, arith, str_eq, eq_iff, if◌then◌else◌, Bool-cases, All,
}
use kube_vip_cloud_provider.Netip.{Addr, is4}
use kube_vip_cloud_provider.Netip.Print.{addr_string}
use kube_vip_cloud_provider.Kube.{ServicePort}
use kube_vip_cloud_provider.Provider.Sharing.{
  PortMap, has_port, insert_port, insert_ports, reserve_ip, note_ports,
}

unfoldable pub find_ports : String → PortMap → Option (List ℕ)
find_ports ip [] = none
find_ports ip ((k, ports) ∷ m) = if str_eq k ip then some ports else find_ports ip m

abbrev or_empty : Option (List ℕ) → List ℕ
or_empty none = []
or_empty (some ports) = ports

pub find_ports-insert_port :
    (k ip : String) (port : ℕ) (m : PortMap)
    → find_ports ip (insert_port k port m)
      ≡ (if str_eq k ip then some (port ∷ or_empty (find_ports ip m)) else find_ports ip m)
unfolding find_ports insert_port
find_ports-insert_port k ip port [] = refl
find_ports-insert_port k ip port ((j, ports) ∷ m) =
    ground (arith, eq_iff k ip, eq_iff j k, eq_iff j ip, find_ports-insert_port k ip port m)

pub find_ports-reserve_ip :
    (k ip : String) (m : PortMap)
    → find_ports ip (reserve_ip k m) ≡ (if str_eq k ip then some (0 ∷ []) else find_ports ip m)
unfolding find_ports reserve_ip
find_ports-reserve_ip k ip [] = refl
find_ports-reserve_ip k ip ((j, ports) ∷ m) =
    ground (arith, eq_iff k ip, eq_iff j k, eq_iff j ip, find_ports-reserve_ip k ip m)

-- The address has an entry with the port.
abbrev pub HasAt : String → ℕ → PortMap → Type 0
HasAt ip port m = has_port port (or_empty (find_ports ip m)) ≡ true

-- The entry of an address that a service with these ports uses: it is closed to others by the port 0,
-- or it has all of the service's ports, of which there are some.
abbrev pub Marks : List ServicePort → String → PortMap → Type 0
Marks ps ip m = HasAt ip 0 m ⊎ ((ps ≢ []) × All (λ p. HasAt ip p.port m) ps)

HasAt-insert_port :
    (ip k : String) (port p : ℕ) (m : PortMap) → HasAt ip p m → HasAt ip p (insert_port k port m)
unfolding has_port
HasAt-insert_port ip k port p m h = ground (arith, find_ports-insert_port k ip port m)

HasAt-insert_self : (ip : String) (port : ℕ) (m : PortMap) → HasAt ip port (insert_port ip port m)
unfolding has_port
HasAt-insert_self ip port m = ground (arith, find_ports-insert_port ip ip port m, eq_iff ip ip)

module _ (ip : String) where
  pub All-HasAt :
      (m m' : PortMap) (ps : List ServicePort)
      → ((p : ℕ) → HasAt ip p m → HasAt ip p m')
      → All (λ p. HasAt ip p.port m) ps
      → All (λ p. HasAt ip p.port m') ps
  All-HasAt m m' [] f h = tt
  All-HasAt m m' (p ∷ ps) f h = (f p.port h.0, All-HasAt m m' ps f h.1)

  pub Marks-mono :
      (m m' : PortMap) (ps : List ServicePort)
      → ((p : ℕ) → HasAt ip p m → HasAt ip p m')
      → Marks ps ip m
      → Marks ps ip m'
  Marks-mono m m' ps f (inl h) = inl (f 0 h)
  Marks-mono m m' ps f (inr (some_, h)) = inr (some_, All-HasAt m m' ps f h)

HasAt-insert_ports :
    (ip k : String) (ps : List ServicePort) (p : ℕ) (m : PortMap)
    → HasAt ip p m
    → HasAt ip p (insert_ports k ps m)
unfolding insert_ports
HasAt-insert_ports ip k [] p m h = h
HasAt-insert_ports ip k (q ∷ ps) p m h =
    HasAt-insert_ports ip k ps p (insert_port k q.port m) (HasAt-insert_port ip k q.port p m h)

insert_ports-HasAt :
    (ip : String) (ps : List ServicePort) (m : PortMap)
    → All (λ p. HasAt ip p.port (insert_ports ip ps m)) ps
unfolding insert_ports
insert_ports-HasAt ip [] m = tt
insert_ports-HasAt ip (q ∷ ps) m = (
  HasAt-insert_ports ip ip ps q.port (insert_port ip q.port m) (HasAt-insert_self ip q.port m),
  insert_ports-HasAt ip ps (insert_port ip q.port m),
)

Marks-reserve_ip :
    (ip k : String) (ps : List ServicePort) (m : PortMap)
    → Marks ps ip m
    → Marks ps ip (reserve_ip k m)
unfolding has_port
Marks-reserve_ip ip k ps m h = elim (Bool-cases (str_eq k ip)) [
  | inl same ↦ inl (ground (arith, find_ports-reserve_ip k ip m))
  | inr other ↦
      let e : find_ports ip (reserve_ip k m) ≡ find_ports ip m =
        find_ports-reserve_ip k ip m ∙ rw other in
      Marks-mono ip m (reserve_ip k m) ps (λ p q. rw e q) h
]

-- Later addresses keep the marks.
pub Marks-note_ports :
    (ip : String) (ps qs : List ServicePort) (share : Bool) (a : Addr) (m : PortMap)
    → Marks ps ip m
    → Marks ps ip (note_ports share qs a m)
unfolding note_ports
Marks-note_ports ip ps [] share a m h = elim (Bool-cases (share && is4 a)) [
  | inl e ↦ rw e (Marks-reserve_ip ip (addr_string a) ps m h)
  | inr e ↦ rw e h
]
Marks-note_ports ip ps (q ∷ qs) share a m h = elim (Bool-cases (share && is4 a)) [
  | inl e ↦
      rw e (Marks-mono ip m _ ps (λ p k. HasAt-insert_ports ip (addr_string a) (q ∷ qs) p m k) h)
  | inr e ↦ rw e h
]

-- An IPv4 address is marked with its service's ports.
pub note_ports-Marks :
    (ps : List ServicePort) (a : Addr) (m : PortMap)
    → is4 a ≡ true
    → Marks ps (addr_string a) (note_ports true ps a m)
unfolding note_ports has_port
note_ports-Marks [] a m v4 = rw v4 (
    inl (
      ground (
        arith,
        find_ports-reserve_ip (addr_string a) (addr_string a) m,
        eq_iff (addr_string a) (addr_string a),
      )))
note_ports-Marks (p ∷ ps) a m v4 =
    let e : note_ports true (p ∷ ps) a m ≡ insert_ports (addr_string a) (p ∷ ps) m = rw v4 in
    subst (Marks (p ∷ ps) (addr_string a)) (sym e)
      (inr ((λ q. cc q), insert_ports-HasAt (addr_string a) (p ∷ ps) m))
