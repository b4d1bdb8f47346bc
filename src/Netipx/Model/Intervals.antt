-- ===== src/Netipx/Model/Intervals.antt =====
-- Sorted lists of intervals, apart from one another, with an insertion that merges.
use Prim.Native.Nat.{min, max}
use kube_vip_cloud_provider.Prelude.{
  ◌&&◌, leb, ◌≡◌, ℕ, ◌+◌, ◌≤◌, ◌<◌, ◌⊎◌, inl, inr, false, arith, Bool-cases, ltb, if◌then◌else◌,
  List, [], ◌∷◌, Any,
}

pub record Interval : Type 0 where
  pub low : ℕ
  pub high : ℕ

unfoldable pub insert : ℕ → ℕ → List Interval → List Interval
insert a b [] = record { low = a; high = b } ∷ []
insert a b (i ∷ is) =
    let merged = insert (min a i.low) (max b i.high) is in
    let behind = i ∷ insert a b is in
    if ltb (b + 1) i.low
    then record { low = a; high = b } ∷ i ∷ is
    else if ltb (i.high + 1) a
    then behind
    else merged

abbrev pub Covers : ℕ → Interval → Type 0
Covers x i = (i.low ≤ x) × (x ≤ i.high)

-- The intervals are in order, start at `least` or later, leave gaps, and end below `bound`.
abbrev pub IsNormal : ℕ → ℕ → List Interval → Type 0
IsNormal bound least [] = Unit {0}
IsNormal bound least (i ∷ is) =
    (least ≤ i.low) × (i.low ≤ i.high) × (i.high < bound) × IsNormal bound (i.high + 2) is

IsNormal-weaken :
    (bound k l : ℕ) (is : List Interval) → k ≤ l → IsNormal bound l is → IsNormal bound k is
IsNormal-weaken bound k l [] h n = tt
IsNormal-weaken bound k l (i ∷ is) h n = (omega arith, n.1, n.2, n.3)

pub insert-IsNormal :
    (bound k a b : ℕ) (is : List Interval)
    → k ≤ a
    → a ≤ b
    → b < bound
    → IsNormal bound k is
    → IsNormal bound k (insert a b is)
unfolding insert
insert-IsNormal bound k a b [] h le lt n = (h, le, lt, tt)
insert-IsNormal bound k a b (i ∷ is) h le lt n = elim (Bool-cases (ltb (b + 1) i.low)) [
  | inl front ↦ rw front (h, le, lt, (ground arith, n.1, n.2, n.3))
  | inr more ↦ elim (Bool-cases (ltb (i.high + 1) a)) [
    | inl behind ↦
        rw (more, behind)
          (n.0, n.1, n.2, insert-IsNormal bound (i.high + 2) a b is (ground arith) le lt n.3)
    | inr meets ↦
        rw (more, meets)
          (insert-IsNormal bound k (min a i.low) (max b i.high) is (omega arith) (omega arith)
            (omega arith) (IsNormal-weaken bound k (i.high + 2) is (omega arith) n.3))
  ]
]

-- Two intervals that overlap or touch make one.
merge_covers :
    (x a b c d : ℕ)
    → ltb (b + 1) c ≡ false
    → ltb (d + 1) a ≡ false
    → min a c ≤ x
    → x ≤ max b d
    → ((a ≤ x) × (x ≤ b)) ⊎ ((c ≤ x) × (x ≤ d))
merge_covers x a b c d h k low high = elim (Bool-cases (leb a x && leb x b)) [
  | inl e ↦ inl (ground arith)
  | inr e ↦ inr (ground arith, ground arith)
]

pub insert-Covers :
    (x a b : ℕ) (is : List Interval)
    → Any (Covers x) (insert a b is)
    → ((a ≤ x) × (x ≤ b)) ⊎ Any (Covers x) is
unfolding insert
insert-Covers x a b [] h = h
insert-Covers x a b (i ∷ is) h = elim (Bool-cases (ltb (b + 1) i.low)) [
  | inl front ↦ rw front at h
  | inr more ↦ elim (Bool-cases (ltb (i.high + 1) a)) [
    | inl behind ↦ elim (let m : Any (Covers x) (i ∷ insert a b is) = rw (more, behind) at h in m) [
      | inl here ↦ inr (inl here)
      | inr there ↦ elim (insert-Covers x a b is there) [
        | inl new ↦ inl new
        | inr old ↦ inr (inr old)
      ]
    ]
    | inr meets ↦
        elim (insert-Covers x (min a i.low) (max b i.high) is (
          let m : Any (Covers x) (insert (min a i.low) (max b i.high) is) = rw (more, meets) at h in
          m)) [
            | inl new ↦ elim (merge_covers x a b i.low i.high more meets new.0 new.1) [
              | inl l ↦ inl l
              | inr r ↦ inr (inl r)
            ]
            | inr old ↦ inr (inr old)
          ]
  ]
]

pub Covers-insert :
    (x a b : ℕ) (is : List Interval)
    → ((a ≤ x) × (x ≤ b)) ⊎ Any (Covers x) is
    → Any (Covers x) (insert a b is)
unfolding insert
Covers-insert x a b [] h = h
Covers-insert x a b (i ∷ is) h = elim (Bool-cases (ltb (b + 1) i.low)) [
  | inl front ↦ rw front h
  | inr more ↦ elim (Bool-cases (ltb (i.high + 1) a)) [
    | inl behind ↦
        rw (more, behind)
          (elim h [
            | inl new ↦ inr (Covers-insert x a b is (inl new))
            | inr old ↦ elim old [
              | inl here ↦ inl here
              | inr there ↦ inr (Covers-insert x a b is (inr there))
            ]
          ])
    | inr meets ↦
        rw (more, meets)
          (Covers-insert x (min a i.low) (max b i.high) is (elim h [
            | inl new ↦ inl (omega arith, omega arith)
            | inr old ↦ elim old [
              | inl here ↦ inl (omega arith, omega arith)
              | inr there ↦ inr there
            ]
          ]))
  ]
]
