-- ===== src/Netip/RoundTrip.antt =====
-- That the text of an IPv4 address is read back as the address.
use Prim.Native.Char.{Char, code}
use Prim.Native.String.{String, ◌++◌ as append}
use text.Mathlib.TextLemmas.{cons-append, nil-append, append_assoc}
use kube_vip_cloud_provider.Prelude.{
  ℕ, zero, suc, ◌+◌, ◌-◌, ◌*◌, ◌/◌, ◌%◌, ◌≤◌, ◌<◌, ◌≡◌, refl, ap, ◌∙◌, ◌≢◌, inl, inr, true, false,
  ◌&&◌, arith, ltb, leb, ◌==◌, Bool-cases,
}
use kube_vip_cloud_provider.Netip.Parse.{parse_fields}
use kube_vip_cloud_provider.Netip.Print.{decimal, digit, number}

-- A digit is the text of one character.
digit_text : (n : ℕ) → n < 10 → (c : Char) × (digit n ≡ String.◌∷◌ c String.[]) × (code c ≡ 48 + n)
digit_text zero h = ("0", refl, refl)
digit_text (suc zero) h = ("1", refl, refl)
digit_text (suc (suc zero)) h = ("2", refl, refl)
digit_text (suc (suc (suc zero))) h = ("3", refl, refl)
digit_text (suc (suc (suc (suc zero)))) h = ("4", refl, refl)
digit_text (suc (suc (suc (suc (suc zero))))) h = ("5", refl, refl)
digit_text (suc (suc (suc (suc (suc (suc zero)))))) h = ("6", refl, refl)
digit_text (suc (suc (suc (suc (suc (suc (suc zero))))))) h = ("7", refl, refl)
digit_text (suc (suc (suc (suc (suc (suc (suc (suc zero)))))))) h = ("8", refl, refl)
digit_text (suc (suc (suc (suc (suc (suc (suc (suc (suc zero))))))))) h = ("9", refl, refl)
digit_text (suc (suc (suc (suc (suc (suc (suc (suc (suc (suc n)))))))))) h = absurd (omega arith)

-- Reading one digit: the value so far and the number of digits, with no leading zero.
read_char :
    (c : Char) (n : ℕ) (t : String) (val digits pos acc : ℕ)
    → code c ≡ 48 + n
    → n < 10
    → (digits ≡ 1 → val ≢ 0)
    → val * 10 + n ≤ 255
    → parse_fields (String.◌∷◌ c t) val digits pos acc
      ≡ parse_fields t (val * 10 + n) (digits + 1) pos acc
unfolding parse_fields
read_char c n t val digits pos acc value lt lead small =
    let is_digit : (leb b'0' (code c) && leb (code c) b'9') ≡ true = ground arith in
    let no_zero : (digits == 1 && val == 0) ≡ false = ground arith in
    let new : val * 10 + (code c - b'0') ≡ val * 10 + n = omega arith in
    let fits : ltb 255 (val * 10 + n) ≡ false = ground arith in
    rw (parse_fields, is_digit, no_zero, new, fits) refl

-- A digit in front of a text.
pub digit_front :
    (m : ℕ)
    → m < 10
    → (t : String) → (c : Char) × (append (digit m) t ≡ String.◌∷◌ c t) × (code c ≡ 48 + m)
digit_front m lt t =
    let (c, text, value) = digit_text m lt in
    (
      c,
      ap (λ s. append s t) text
          ∙ cons-append c String.[] t
          ∙ ap (λ s. String.◌∷◌ c s) (nil-append t),
      value,
    )

read_digit :
    (n : ℕ)
    → n < 10
    → (t : String) (val digits pos acc : ℕ) → (digits ≡ 1 → val ≢ 0)
    → (out more : ℕ) → out ≤ 255
    → val * 10 + n ≡ out
    → digits + 1 ≡ more
    → parse_fields (append (digit n) t) val digits pos acc ≡ parse_fields t out more pos acc
read_digit n lt t val digits pos acc lead out more small e f =
    let (c, joined, value) = digit_front n lt t in
    ap (λ s. parse_fields s val digits pos acc) joined
    ∙ read_char c n t val digits pos acc value lt lead (omega arith)
    ∙ rw (e, f) refl

number_small : (fuel n : ℕ) → n < 10 → number 10 (suc fuel) n ≡ digit n
unfolding number
number_small fuel n lt = let e : ltb n 10 ≡ true = ground arith in rw (number, e) refl

number_large :
    (fuel n : ℕ)
    → 10 ≤ n
    → number 10 (suc fuel) n ≡ append (number 10 fuel (n / 10)) (digit (n % 10))
unfolding number
number_large fuel n le = let e : ltb n 10 ≡ false = ground arith in rw (number, e) refl

decimal_eq : (n : ℕ) → decimal n ≡ number 10 20 n
unfolding decimal
decimal_eq n = refl

-- What is left to read after a number below 256.
abbrev pub ReadsTo : ℕ → String → String → ℕ → ℕ → Type 0
ReadsTo n s t pos acc =
    (digits : ℕ) × (1 ≤ digits) × (parse_fields s 0 0 pos acc ≡ parse_fields t n digits pos acc)

one_digit : (n : ℕ) → n < 10 → (t : String) (pos acc : ℕ) → ReadsTo n (append (digit n) t) t pos acc
one_digit n lt t pos acc = (
  1,
  omega arith,
  read_digit n lt t 0 0 pos acc (λ h. absurd (omega arith)) n 1 (omega arith) (omega arith)
      (omega arith),
)

two_digits :
    (m n out : ℕ)
    → 1 ≤ m
    → m < 10
    → n < 10
    → m * 10 + n ≡ out
    → (t : String) (pos acc : ℕ) → ReadsTo out (append (append (digit m) (digit n)) t) t pos acc
two_digits m n out some_ lt lt' e t pos acc = (
  2,
  omega arith,
  ap (λ s. parse_fields s 0 0 pos acc) (append_assoc (digit m) (digit n) t)
      ∙ read_digit m lt (append (digit n) t) 0 0 pos acc (λ h. absurd (omega arith)) m 1
          (omega arith) (omega arith) (omega arith)
      ∙ read_digit n lt' t m 1 pos acc (λ _ z. omega arith) out 2 (omega arith) e (omega arith),
)

three_digits :
    (l m n out : ℕ)
    → 1 ≤ l
    → l < 10
    → m < 10
    → n < 10
    → (l * 10 + m) * 10 + n ≡ out
    → out ≤ 255
    → (t : String) (pos acc : ℕ)
    → ReadsTo out (append (append (append (digit l) (digit m)) (digit n)) t) t pos acc
three_digits l m n out some_ lt lt' lt'' e small t pos acc = (
  3,
  omega arith,
  ap (λ s. parse_fields s 0 0 pos acc)
        (append_assoc (append (digit l) (digit m)) (digit n) t
          ∙ append_assoc (digit l) (digit m) (append (digit n) t))
      ∙ read_digit l lt (append (digit m) (append (digit n) t)) 0 0 pos acc
          (λ h. absurd (omega arith)) l 1 (omega arith) (omega arith) (omega arith)
      ∙ read_digit m lt' (append (digit n) t) l 1 pos acc (λ _ z. omega arith) (l * 10 + m) 2
          (omega arith) refl (omega arith)
      ∙ read_digit n lt'' t (l * 10 + m) 2 pos acc (λ h. absurd (omega arith)) out 3 small e
          (omega arith),
)

-- A number below 256 is read back from its text.
pub decimal-ReadsTo :
    (n : ℕ) → n < 256 → (t : String) (pos acc : ℕ) → ReadsTo n (append (decimal n) t) t pos acc
decimal-ReadsTo n lt t pos acc = elim (Bool-cases (ltb n 10)) [
  | inl small ↦
      rw (decimal_eq n, number_small 19 n (ground arith)) (one_digit n (ground arith) t pos acc)
  | inr more ↦ elim (Bool-cases (ltb n 100)) [
    | inl two ↦
        let many : 10 ≤ n = ground arith in
        let few : n < 100 = ground arith in
        rw (decimal_eq n, number_large 19 n many, number_small 18 (n / 10) (omega arith))
          (two_digits (n / 10) (n % 10) n (omega arith) (omega arith) (omega arith) (omega arith) t
            pos acc)
    | inr three ↦
        let many : 100 ≤ n = ground arith in
        rw
          (
            decimal_eq n,
            number_large 19 n (omega arith),
            number_large 18 (n / 10) (omega arith),
            number_small 17 (n / 10 / 10) (omega arith),
          )
          (three_digits (n / 10 / 10) (n / 10 % 10) (n % 10) n (omega arith) (omega arith)
            (omega arith) (omega arith) (omega arith) (omega arith) t pos acc)
  ]
]

-- What holds of a text with a digit before it, whatever the text, holds of one with a number.
pub decimal_induction :
    (P Q : String → Type 0)
    → ((m : ℕ) → m < 10 → (t : String) → Q t → P (append (digit m) t))
    → ((m : ℕ) → m < 10 → (t : String) → P t → P (append (digit m) t))
    → (n : ℕ) → n < 256
    → (t : String) → Q t
    → P (append (decimal n) t)
decimal_induction P Q last step n lt t q = elim (Bool-cases (ltb n 10)) [
  | inl small ↦ rw (decimal_eq n, number_small 19 n (ground arith)) (last n (ground arith) t q)
  | inr more ↦ elim (Bool-cases (ltb n 100)) [
    | inl two ↦
        let many : 10 ≤ n = ground arith in
        let few : n < 100 = ground arith in
        rw
          (
            decimal_eq n,
            number_large 19 n many,
            number_small 18 (n / 10) (omega arith),
            append_assoc (digit (n / 10)) (digit (n % 10)) t,
          )
          (step (n / 10) (omega arith) _ (last (n % 10) (omega arith) t q))
    | inr three ↦
        let many : 100 ≤ n = ground arith in
        rw
          (
            decimal_eq n,
            number_large 19 n (omega arith),
            number_large 18 (n / 10) (omega arith),
            number_small 17 (n / 10 / 10) (omega arith),
            append_assoc (append (digit (n / 10 / 10)) (digit (n / 10 % 10))) (digit (n % 10)) t,
            append_assoc (digit (n / 10 / 10)) (digit (n / 10 % 10)) (append (digit (n % 10)) t),
          )
          (step (n / 10 / 10) (omega arith) _
            (step (n / 10 % 10) (omega arith) _ (last (n % 10) (omega arith) t q)))
  ]
]
