-- ===== src/Ipam/FreeAddress/Loop.antt =====
-- The loop of FindFreeAddress over one range, upwards and downwards.
use kube_vip_cloud_provider.Netip.Equality.{zone_eq_refl}
use mathlib.Core.Path.{subst₂}
use kube_vip_cloud_provider.Prelude.{
  ℕ, zero, suc, ◌+◌, ◌-◌, ◌≤◌, ◌<◌, ◌≡◌, refl, ◌⊎◌, inl, inr, Bool, true, false, arith, Bool-cases,
  ◌==◌, ap, subst, ◌∙◌,
}
use kube_vip_cloud_provider.Netip.{Addr, Zone, space, next, prev, addr_eq}
use kube_vip_cloud_provider.Ipam.FreeAddress.{Scan, found, exhausted, scan}

abbrev pub at : Zone → ℕ → Addr
at z n = record { value = n; zone = z }

pub addr_eq-at : (z : Zone) (n m : ℕ) → addr_eq (at z n) (at z m) ≡ (n == m)
unfolding addr_eq
addr_eq-at z n m = ground (arith, zone_eq_refl z)

pub next-at : (z : Zone) (n : ℕ) → n + 1 < space z → next (at z n) ≡ at z (n + 1)
unfolding next
next-at z n h = ground arith

pub prev-at : (z : Zone) (n : ℕ) → 0 < n → prev (at z n) ≡ at z (n - 1)
unfolding prev
prev-at z n h = ground arith

-- A walk of `size` steps: `seq i` is its i-th address, and only the last one equals the end.
module _ (test : Addr → Bool) (step : Addr → Addr) (seq : ℕ → Addr) (size : ℕ) where
  -- The first address that passes the test from the i-th on, or none.
  abbrev pub WalkSpec : ℕ → Scan → Type 0
  WalkSpec i r =
      ((k : ℕ) × (r ≡ found (seq k))
        × (i ≤ k)
        × (k ≤ size)
        × (test (seq k) ≡ true)
        × ((j : ℕ) → i ≤ j → j < k → test (seq j) ≡ false))
      ⊎ ((r ≡ exhausted) × ((j : ℕ) → i ≤ j → j ≤ size → test (seq j) ≡ false))

  still :
      (i k : ℕ)
      → test (seq i) ≡ false
      → ((j : ℕ) → i + 1 ≤ j → j < k → test (seq j) ≡ false)
      → (j : ℕ) → i ≤ j
      → j < k
      → test (seq j) ≡ false
  still i k here later j low high = elim (Bool-cases (i == j)) [
    | inl e ↦ ground (arith, here)
    | inr ne ↦ later j (ground arith) high
  ]

  WalkSpec-back : (i : ℕ) (r : Scan) → test (seq i) ≡ false → WalkSpec (i + 1) r → WalkSpec i r
  WalkSpec-back i r here (inl (k, e, low, high, ok_, before)) =
      inl (k, e, omega arith, high, ok_, still i k here before)
  WalkSpec-back i r here (inr (e, none_)) = inr (
    e,
    λ j low high. still i (size + 1) here (λ l a b. none_ l a (omega arith)) j low (omega arith),
  )

  module _ (steps : (i : ℕ) → i < size → step (seq i) ≡ seq (i + 1))
      (ends : (i : ℕ) → i ≤ size → addr_eq (seq i) (seq size) ≡ (i == size)) where
    pub scan-WalkSpec :
        (fuel i : ℕ)
        → i ≤ size
        → size - i < fuel
        → WalkSpec i (scan test step fuel (seq i) (seq size))
    unfolding scan
    scan-WalkSpec zero i le enough = absurd (omega arith)
    scan-WalkSpec (suc fuel) i le enough = elim (Bool-cases (test (seq i))) [
      | inl hit ↦ rw hit (inl (i, refl, omega arith, le, hit, λ j low high. absurd (omega arith)))
      | inr miss ↦ elim (Bool-cases (i == size)) [
        | inl last ↦
            rw (miss, ends i le, last)
              (WalkSpec-back i exhausted miss
                (inr (refl, λ j low high. absurd (let e : i ≡ size = ground arith in omega arith))))
        | inr more ↦
            let lt : i < size = ground arith in
            rw (miss, ends i le, more, steps i lt)
              (WalkSpec-back i _ miss (scan-WalkSpec fuel (i + 1) (omega arith) (omega arith)))
      ]
    ]

module _ (test : Addr → Bool) (z : Zone) where
  -- Up from `n` to `m`: the least number that passes the test, or none does.
  abbrev pub UpSpec : ℕ → ℕ → Scan → Type 0
  UpSpec n m r =
      ((k : ℕ) × (r ≡ found (at z k))
        × (n ≤ k)
        × (k ≤ m)
        × (test (at z k) ≡ true)
        × ((j : ℕ) → n ≤ j → j < k → test (at z j) ≡ false))
      ⊎ ((r ≡ exhausted) × ((j : ℕ) → n ≤ j → j ≤ m → test (at z j) ≡ false))

  -- Down from `m` to `n`: the greatest number that passes the test, or none does.
  abbrev pub DownSpec : ℕ → ℕ → Scan → Type 0
  DownSpec n m r =
      ((k : ℕ) × (r ≡ found (at z k))
        × (n ≤ k)
        × (k ≤ m)
        × (test (at z k) ≡ true)
        × ((j : ℕ) → k < j → j ≤ m → test (at z j) ≡ false))
      ⊎ ((r ≡ exhausted) × ((j : ℕ) → n ≤ j → j ≤ m → test (at z j) ≡ false))

  walk-UpSpec :
      (n m : ℕ) (r : Scan)
      → n ≤ m
      → WalkSpec test next (λ i. at z (n + i)) (m - n) 0 r
      → UpSpec n m r
  walk-UpSpec n m r le (inl (k, e, _, high, ok_, before)) = inl (
    n + k,
    e,
    omega arith,
    omega arith,
    ok_,
    λ j low lt.
        let p : n + (j - n) ≡ j = omega arith in
        subst (λ i. test (at z i) ≡ false) p (before (j - n) (omega arith) (omega arith)),
  )
  walk-UpSpec n m r le (inr (e, none_)) = inr (
    e,
    λ j low high.
        let p : n + (j - n) ≡ j = omega arith in
        subst (λ i. test (at z i) ≡ false) p (none_ (j - n) (omega arith) (omega arith)),
  )

  walk-DownSpec :
      (n m : ℕ) (r : Scan)
      → n ≤ m
      → WalkSpec test prev (λ i. at z (m - i)) (m - n) 0 r
      → DownSpec n m r
  walk-DownSpec n m r le (inl (k, e, _, high, ok_, before)) = inl (
    m - k,
    e,
    omega arith,
    omega arith,
    ok_,
    λ j low lt.
        let p : m - (m - j) ≡ j = omega arith in
        subst (λ i. test (at z i) ≡ false) p (before (m - j) (omega arith) (omega arith)),
  )
  walk-DownSpec n m r le (inr (e, none_)) = inr (
    e,
    λ j low high.
        let p : m - (m - j) ≡ j = omega arith in
        subst (λ i. test (at z i) ≡ false) p (none_ (m - j) (omega arith) (omega arith)),
  )

  pub scan-UpSpec :
      (n m : ℕ) → n ≤ m → m < space z → UpSpec n m (scan test next (suc (m - n)) (at z n) (at z m))
  scan-UpSpec n m le lt =
      subst₂ (λ a b. UpSpec n m (scan test next (suc (m - n)) (at z a) (at z b))) (omega arith)
        (omega arith)
        (walk-UpSpec n m _ le (
          scan-WalkSpec test next (λ i. at z (n + i)) (m - n) step_ end_ (suc (m - n)) 0
            (omega arith) (omega arith)))
    where
      step_ : (i : ℕ) → i < m - n → next (at z (n + i)) ≡ at z (n + (i + 1))
      step_ i h = next-at z (n + i) (omega arith) ∙ ap (at z) (omega arith)

      end_ : (i : ℕ) → i ≤ m - n → addr_eq (at z (n + i)) (at z (n + (m - n))) ≡ (i == m - n)
      end_ i h = addr_eq-at z _ _ ∙ ground arith

  pub scan-DownSpec :
      (n m : ℕ)
      → n ≤ m
      → m < space z
      → DownSpec n m (scan test prev (suc (m - n)) (at z m) (at z n))
  scan-DownSpec n m le lt =
      subst₂ (λ a b. DownSpec n m (scan test prev (suc (m - n)) (at z a) (at z b))) (omega arith)
        (omega arith)
        (walk-DownSpec n m _ le (
          scan-WalkSpec test prev (λ i. at z (m - i)) (m - n) step_ end_ (suc (m - n)) 0
            (omega arith) (omega arith)))
    where
      step_ : (i : ℕ) → i < m - n → prev (at z (m - i)) ≡ at z (m - (i + 1))
      step_ i h = prev-at z (m - i) (omega arith) ∙ ap (at z) (omega arith)

      end_ : (i : ℕ) → i ≤ m - n → addr_eq (at z (m - i)) (at z (m - (m - n))) ≡ (i == m - n)
      end_ i h = addr_eq-at z _ _ ∙ ground arith
