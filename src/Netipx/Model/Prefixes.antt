-- ===== src/Netipx/Model/Prefixes.antt =====
-- The prefixes that make up a set of the implementation.
use kube_vip_cloud_provider.Netipx.{IsPrefix, InPrefix}
use kube_vip_cloud_provider.Netip.{Addr, z4, z6noz, space, Prefix, bit_len, Zone}
use kube_vip_cloud_provider.Prelude.{
  ℕ, zero, suc, ◌+◌, ◌-◌, ◌%◌, ◌^◌, ◌≤◌, ◌<◌, ◌≡◌, refl, sym, ◌↔◌, ◌⊎◌, inl, inr, ◌&&◌, List, [],
  ◌∷◌, arith, leb, ◌==◌, Bool-cases, power_positive, All, Any,
}
use kube_vip_cloud_provider.Netipx.Model.Ranges.{Any-either}
use kube_vip_cloud_provider.Netipx.Model.Adding.{Any-left, Any-right}
use kube_vip_cloud_provider.Netipx.Model.Laws.{All-append}
use kube_vip_cloud_provider.Netipx.Model.Intervals.{Interval, Covers, IsNormal}
use kube_vip_cloud_provider.Netipx.Model.{split_intervals, model, split_interval, block}

-- A block is aligned at its start, ends by `b`, and is not larger than the bound.
block_fits :
    (k a b : ℕ)
    → a ≤ b
    → (a % 2 ^ block k a b ≡ 0) × (a + 2 ^ block k a b ≤ b + 1) × (block k a b ≤ k)
unfolding block
block_fits zero a b h = (omega arith, omega arith, omega arith)
block_fits (suc k) a b h = elim (Bool-cases (a % 2 ^ suc k == 0 && leb (a + 2 ^ suc k) (b + 1))) [
  | inl e ↦ rw (block, e) (ground arith, ground arith, omega arith)
  | inr e ↦ rw (block, e) (let (x, y, z) = block_fits k a b h in (x, y, omega arith))
]

left_over : (a b n fuel : ℕ) → a ≤ b → 1 ≤ n → suc b - a ≤ suc fuel → suc b - (a + n) ≤ fuel
left_over a b n fuel le some_ enough = omega arith

twice_less : (n k : ℕ) → k ≤ n → n - (n - k) ≡ k
twice_less n k h = omega arith

-- The numbers of an aligned block of 2 ^ k numbers.
aligned :
    (n k a : ℕ)
    → k ≤ n
    → a % 2 ^ k ≡ 0
    → let size = 2 ^ (n - (n - k)) in (a - a % size ≡ a) × (a - a % size + size - 1 ≡ a + 2 ^ k - 1)
aligned n k a h e = rw (twice_less n k h) (omega arith, omega arith)

abbrev block_at : Zone → ℕ → ℕ → Prefix
block_at z k a = record { addr = record { value = a; zone = z }; bits = bit_len z - k }

module _ (z : Zone) (x : ℕ) where
  block_iff :
      (k a : ℕ)
      → k ≤ bit_len z
      → a % 2 ^ k ≡ 0
      → InPrefix model (record { value = x; zone = z }) (block_at z k a)
        ↔ ((a ≤ x) × (x ≤ a + 2 ^ k - 1))
  block_iff k a h e =
      let (base, last) = aligned (bit_len z) k a h e in
      (
        λ (_, low, high). (omega arith, omega arith),
        λ (low, high). (refl, omega arith, omega arith),
      )

  split_interval_iff :
      (fuel a b : ℕ)
      → suc b - a ≤ fuel
      → Any (InPrefix model (record { value = x; zone = z })) (split_interval z fuel a b)
        ↔ ((a ≤ x) × (x ≤ b))
  unfolding split_interval
  split_interval_iff zero a b enough = (λ h. absurd h, λ (low, high). absurd (omega arith))
  split_interval_iff (suc fuel) a b enough = elim (Bool-cases (leb a b)) [
    | inr e ↦ rw (split_interval, e) (λ h. absurd h, λ (low, high). absurd (ground arith))
    | inl e ↦
        let k = block (bit_len z) a b in
        let le : a ≤ b = ground arith in
        let (start, ends, few) = block_fits (bit_len z) a b le in
        let here = block_iff k a few start in
        let rest =
          split_interval_iff fuel (a + 2 ^ k) b
            (left_over a b (2 ^ k) fuel le (power_positive k) enough) in
        rw (split_interval, e)
          (
            λ h. elim h [
              | inl first ↦ (let (low, high) = here.0 first in (low, omega arith))
              | inr later ↦ (let (low, high) = rest.0 later in (omega arith, high))
            ],
            λ (low, high). elim (Bool-cases (leb (a + 2 ^ k) x)) [
              | inl after ↦ inr (rest.1 (ground arith, high))
              | inr before ↦ inl (here.1 (low, ground arith))
            ],
          )
  ]

module _ (z : Zone) (plain : (z ≡ z4) ⊎ (z ≡ z6noz)) where
  space_eq : space z ≡ 2 ^ bit_len z
  space_eq = elim plain [ inl e ↦ rw e refl | inr e ↦ rw e refl ]

  block-IsPrefix :
      (k a : ℕ)
      → k ≤ bit_len z
      → a % 2 ^ k ≡ 0
      → a + 2 ^ k ≤ space z
      → IsPrefix model (block_at z k a)
  block-IsPrefix k a few start inside =
      let (base, last) = aligned (bit_len z) k a few start in
      let some_ = power_positive k in
      record { no_zone = plain; few_bits = omega arith; masked = sym base; in_space = omega arith }

  split_interval-IsPrefix :
      (fuel a b : ℕ) → b < space z → All (IsPrefix model) (split_interval z fuel a b)
  unfolding split_interval
  split_interval-IsPrefix zero a b inside = tt
  split_interval-IsPrefix (suc fuel) a b inside = elim (Bool-cases (leb a b)) [
    | inr e ↦ rw (split_interval, e) tt
    | inl e ↦
        let le : a ≤ b = ground arith in
        let (start, ends, few) = block_fits (bit_len z) a b le in
        rw (split_interval, e)
          (
            block-IsPrefix (block (bit_len z) a b) a few start (omega arith),
            split_interval-IsPrefix fuel (a + 2 ^ block (bit_len z) a b) b inside,
          )
  ]

  pub split_intervals-IsPrefix :
      (least : ℕ) (is : List Interval)
      → IsNormal (space z) least is
      → All (IsPrefix model) (split_intervals z is)
  unfolding split_intervals
  split_intervals-IsPrefix least [] n = tt
  split_intervals-IsPrefix least (i ∷ is) n =
      All-append _ (split_interval z (suc i.high - i.low) i.low i.high) _
        (split_interval-IsPrefix (suc i.high - i.low) i.low i.high n.2)
        (split_intervals-IsPrefix (i.high + 2) is n.3)

pub split_intervals_iff :
    (z : Zone) (x : ℕ) (is : List Interval)
    → Any (InPrefix model (record { value = x; zone = z })) (split_intervals z is)
      ↔ Any (Covers x) is
unfolding split_intervals
split_intervals_iff z x [] = (λ h. h, λ h. h)
split_intervals_iff z x (i ∷ is) =
    let pieces = split_interval z (suc i.high - i.low) i.low i.high in
    let here = split_interval_iff z x (suc i.high - i.low) i.low i.high (omega arith) in
    let rest = split_intervals_iff z x is in
    (
      λ h. elim (Any-either _ pieces _ h) [ inl m ↦ inl (here.0 m) | inr m ↦ inr (rest.0 m) ],
      λ h. elim h [
        | inl m ↦ Any-left _ pieces _ (here.1 m)
        | inr m ↦ Any-right _ pieces _ (rest.1 m)
      ],
    )

-- The prefixes of a family hold addresses of that family only.
split_interval_zone :
    (z : Zone) (a : Addr) (fuel low high : ℕ)
    → Any (InPrefix model a) (split_interval z fuel low high)
    → a.zone ≡ z
unfolding split_interval
split_interval_zone z a zero low high h = absurd h
split_interval_zone z a (suc fuel) low high h = elim (Bool-cases (leb low high)) [
  | inr e ↦ absurd (let m : Any (InPrefix model a) [] = rw (split_interval, e) at h in m)
  | inl e ↦
      elim (let m : Any (InPrefix model a) (
            block_at z (block (bit_len z) low high) low
            ∷ split_interval z fuel (low + 2 ^ block (bit_len z) low high) high) =
          rw (split_interval, e) at h in
        m) [ inl first ↦ first.0 | inr later ↦ split_interval_zone z a fuel _ high later ]
]

pub split_intervals_zone :
    (z : Zone) (a : Addr) (is : List Interval)
    → Any (InPrefix model a) (split_intervals z is)
    → a.zone ≡ z
unfolding split_intervals
split_intervals_zone z a [] h = absurd h
split_intervals_zone z a (i ∷ is) h =
    elim (Any-either _ (split_interval z (suc i.high - i.low) i.low i.high) _ h) [
      | inl m ↦ split_interval_zone z a _ i.low i.high m
      | inr m ↦ split_intervals_zone z a is m
    ]
