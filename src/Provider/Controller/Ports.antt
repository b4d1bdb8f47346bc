-- ===== src/Provider/Controller/Ports.antt =====
-- When the texts, the options and the ports that the controller compares count as the same.
use kube_vip_cloud_provider.Prelude.{
  ℕ, String, ◌≡◌, refl, ap, ◌↔◌, inl, inr, Bool, true, false, not, Option, none, some, List, [],
  ◌∷◌, arith, str_eq, eq_iff, ◌==◌, if◌then◌else◌, Bool-cases, length,
}
use kube_vip_cloud_provider.Kube.{Service, ServicePort, IntOrString}
use kube_vip_cloud_provider.Provider.Controller.{
  same_option, same_texts, same_target, port_equal_for_lb, all_ports_equal,
  port_slices_equal_for_lb, ports_equal_for_lb,
}

pub same_texts_iff : (xs ys : List String) → (same_texts xs ys ≡ true) ↔ (xs ≡ ys)
same_texts_iff [] [] = (λ h. refl, λ h. refl)
same_texts_iff [] (y ∷ ys) = (λ h. cc, λ h. cc)
same_texts_iff (x ∷ xs) [] = (λ h. cc, λ h. cc)
same_texts_iff (x ∷ xs) (y ∷ ys) = (
  λ h.
      (let a : x ≡ y = ground (arith, eq_iff x y) in
        let b : xs ≡ ys = (same_texts_iff xs ys).0 (ground arith) in rw (a, b) refl),
  λ h.
      (let a : x ≡ y = cc in
        let b : xs ≡ ys = cc in ground (arith, eq_iff x y, (same_texts_iff xs ys).1 b)),
)

module _ {A : Type 0} (same : A → A → Bool)
    (same_iff : (x y : A) → (same x y ≡ true) ↔ (x ≡ y)) where
  pub same_option_iff : (x y : Option A) → (same_option same x y ≡ true) ↔ (x ≡ y)
  same_option_iff none none = (λ h. refl, λ h. refl)
  same_option_iff none (some y) = (λ h. cc, λ h. cc)
  same_option_iff (some x) none = (λ h. cc, λ h. cc)
  same_option_iff (some x) (some y) =
      (λ h. ap some ((same_iff x y).0 h), λ h. (same_iff x y).1 (let e : x ≡ y = cc in e))

pub number_iff : (x y : ℕ) → ((x == y) ≡ true) ↔ (x ≡ y)
number_iff x y = (λ h. ground arith, λ h. ground arith)

pub text_iff : (x y : String) → (str_eq x y ≡ true) ↔ (x ≡ y)
text_iff x y = eq_iff x y

-- A guard that has to hold, before another test.
guard_iff :
    {P Q : Type 0} (b r : Bool)
    → (b ≡ true) ↔ P
    → (r ≡ true) ↔ Q
    → ((if not b then false else r) ≡ true) ↔ (P × Q)
guard_iff true r p q = (λ h. (p.0 refl, q.0 h), λ (x, y). q.1 y)
guard_iff false r p q = (λ h. cc, λ (x, y). (let e : false ≡ true = p.1 x in e))

same_target_iff : (x y : IntOrString) → (same_target x y ≡ true) ↔ (x ≡ y)
same_target_iff x y = (
  λ h. ground (arith, eq_iff x.str_val y.str_val),
  λ h. ground (arith, eq_iff x.str_val y.str_val, ap (λ (r : IntOrString). r.str_val) h),
)

port_equal_iff : (x y : ServicePort) → (port_equal_for_lb x y ≡ true) ↔ (x ≡ y)
unfolding port_equal_for_lb
port_equal_iff x y =
    let all_fields = guard_iff (str_eq x.name y.name) _ (text_iff x.name y.name) (
      guard_iff (str_eq x.protocol y.protocol) _ (text_iff x.protocol y.protocol) (
        guard_iff (x.port == y.port) _ (number_iff x.port y.port) (
          guard_iff (x.node_port == y.node_port) _ (number_iff x.node_port y.node_port) (
            guard_iff (same_target x.target_port y.target_port) _
              (same_target_iff x.target_port y.target_port)
              (same_option_iff str_eq text_iff x.app_protocol y.app_protocol))))) in
    (
      λ h. (let (a, (b, (c, (d, (e, f))))) = all_fields.0 h in cc),
      λ h. all_fields.1 (cc, (cc, (cc, (cc, (cc, cc))))),
    )

all_ports_equal_iff :
    (xs ys : List ServicePort) → length xs ≡ length ys → (all_ports_equal xs ys ≡ true) ↔ (xs ≡ ys)
unfolding all_ports_equal
all_ports_equal_iff [] [] l = (λ h. refl, λ h. refl)
all_ports_equal_iff [] (y ∷ ys) l = (λ h. absurd (omega arith), λ h. refl)
all_ports_equal_iff (x ∷ xs) [] l = (λ h. absurd (omega arith), λ h. refl)
all_ports_equal_iff (x ∷ xs) (y ∷ ys) l =
    let both =
      guard_iff (port_equal_for_lb x y) _ (port_equal_iff x y)
        (all_ports_equal_iff xs ys (omega arith)) in
    (λ h. (let (a, b) = both.0 h in rw (a, b) refl), λ h. both.1 (cc, cc))

pub ports_equal_iff : (x y : Service) → (ports_equal_for_lb x y ≡ true) ↔ (x.ports ≡ y.ports)
unfolding ports_equal_for_lb port_slices_equal_for_lb
ports_equal_iff x y = elim (Bool-cases (length x.ports == length y.ports)) [
  | inl e ↦
      rw (ports_equal_for_lb, port_slices_equal_for_lb, e)
        (all_ports_equal_iff x.ports y.ports ((number_iff _ _).0 e))
  | inr e ↦
      rw (ports_equal_for_lb, port_slices_equal_for_lb, e)
        (
          λ h. cc,
          λ h. absurd (
              cc (
                let q : (length x.ports == length y.ports) ≡ true =
                  (number_iff _ _).1 (ap length h) in
                q)),
        )
]
