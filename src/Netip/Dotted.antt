-- ===== src/Netip/Dotted.antt =====
-- That the text of an IPv4 address is read back as the address.
use kube_vip_cloud_provider.Netip.{z4, Addr}
use Prim.Native.Char.{code}
use Prim.Native.String.{String, ◌++◌ as append}
use text.Mathlib.TextLemmas.{cons-append, nil-append, append-nil}
use kube_vip_cloud_provider.Prelude.{
  ℕ, ◌+◌, ◌*◌, ◌/◌, ◌%◌, ◌^◌, ◌≤◌, ◌<◌, ◌≡◌, refl, sym, ap, ◌∙◌, ◌≢◌, false, some, arith, ◌==◌,
  contains_byte, is_empty, join, ok, contains_byte-append,
}
use kube_vip_cloud_provider.Netip.Parse.{parse_v4, parse_addr, parse_fields, shape, dotted}
use kube_vip_cloud_provider.Netip.Print.{addr_string, decimal, digit}
use kube_vip_cloud_provider.Netip.RoundTrip.{decimal-ReadsTo, decimal_induction, digit_front}

dot_front : (t : String) → append "." t ≡ String.◌∷◌ "." t
dot_front t = cons-append "." "" t ∙ ap (λ s. String.◌∷◌ "." s) (nil-append t)

read_dot :
    (t : String) (val digits pos acc : ℕ)
    → 1 ≤ digits
    → is_empty t ≡ false
    → pos < 3
    → parse_fields (append "." t) val digits pos acc
      ≡ parse_fields t 0 0 (pos + 1) (acc * 256 + val)
unfolding parse_fields
read_dot t val digits pos acc some_ more front =
    let a : (digits == 0) ≡ false = ground arith in
    let b : (pos == 3) ≡ false = ground arith in
    ap (λ s. parse_fields s val digits pos acc) (dot_front t) ∙ rw (parse_fields, a, more, b) refl

-- A number and a dot.
read_part :
    (n : ℕ)
    → n < 256
    → (t : String) (pos acc out : ℕ) → is_empty t ≡ false
    → pos < 3
    → acc * 256 + n ≡ out
    → parse_fields (append (decimal n) (append "." t)) 0 0 pos acc
      ≡ parse_fields t 0 0 (pos + 1) out
read_part n lt t pos acc out more front e =
    let (digits, some_, read) = decimal-ReadsTo n lt (append "." t) pos acc in
    read ∙ read_dot t n digits pos acc some_ more front ∙ ap (λ x. parse_fields t 0 0 (pos + 1) x) e

read_last :
    (n : ℕ) → n < 256 → (acc : ℕ) → parse_fields (decimal n) 0 0 3 acc ≡ some (acc * 256 + n)
unfolding parse_fields
read_last n lt acc =
    let (digits, some_, read) = decimal-ReadsTo n lt "" 3 acc in
    ap (λ s. parse_fields s 0 0 3 acc) (sym (append-nil (decimal n))) ∙ read

digit_is_not_empty : (m : ℕ) → m < 10 → (t : String) → is_empty (append (digit m) t) ≡ false
digit_is_not_empty m lt t = let (c, e, _) = digit_front m lt t in rw e refl

number_is_not_empty : (n : ℕ) → n < 256 → (t : String) → is_empty (append (decimal n) t) ≡ false
number_is_not_empty n lt t =
    decimal_induction (λ s. is_empty s ≡ false) (λ _. Unit) (λ m l s _. digit_is_not_empty m l s)
      (λ m l s _. digit_is_not_empty m l s) n lt t tt

shape-digit :
    (m : ℕ) → m < 10 → (t : String) → shape t ≡ dotted → shape (append (digit m) t) ≡ dotted
unfolding shape
shape-digit m lt t h =
    let (c, e, value) = digit_front m lt t in
    let a : (code c == b'.') ≡ false = ground arith in
    let b : (code c == b':') ≡ false = ground arith in
    let d : (code c == b'%') ≡ false = ground arith in rw (e, shape, a, b, d) h

dot_shape : (t : String) → shape (append "." t) ≡ dotted
unfolding shape
dot_shape t = rw (dot_front t) refl

-- The four numbers of an address, and the text that has them.
abbrev four_parts : ℕ → ℕ → ℕ → ℕ → String
four_parts a b c d =
    append (decimal a)
      (append "." (append (decimal b) (append "." (append (decimal c) (append "." (decimal d))))))

shape-four_parts : (a b c d : ℕ) → a < 256 → shape (four_parts a b c d) ≡ dotted
shape-four_parts a b c d lt =
    decimal_induction (λ s. shape s ≡ dotted) (λ s. shape s ≡ dotted) shape-digit shape-digit a lt _
      (dot_shape (append (decimal b) (append "." (append (decimal c) (append "." (decimal d))))))

last_not_empty : (n : ℕ) → n < 256 → is_empty (decimal n) ≡ false
last_not_empty n lt = ap is_empty (sym (append-nil (decimal n))) ∙ number_is_not_empty n lt ""

read_four :
    (a b c d : ℕ)
    → a < 256
    → b < 256
    → c < 256
    → d < 256
    → parse_fields (four_parts a b c d) 0 0 0 0 ≡ some (((a * 256 + b) * 256 + c) * 256 + d)
read_four a b c d la lb lc ld =
    read_part a la (append (decimal b) (append "." (append (decimal c) (append "." (decimal d))))) 0
      0 a (number_is_not_empty b lb (append "." (append (decimal c) (append "." (decimal d)))))
      (omega arith) (omega arith)
    ∙ read_part b lb (append (decimal c) (append "." (decimal d))) 1 a (a * 256 + b)
        (number_is_not_empty c lc (append "." (decimal d))) (omega arith) refl
    ∙ read_part c lc (decimal d) 2 (a * 256 + b) ((a * 256 + b) * 256 + c) (last_not_empty d ld)
        (omega arith) refl
    ∙ read_last d ld ((a * 256 + b) * 256 + c)

abbrev pub v4_of : ℕ → Addr
v4_of n = record { value = n; zone = z4 }

dotted_four :
    (n : ℕ)
    → addr_string (v4_of n) ≡ four_parts (n / 2 ^ 24) (n / 2 ^ 16 % 256) (n / 256 % 256) (n % 256)
unfolding addr_string join
dotted_four n = refl

read_dotted :
    (s : String) (n : ℕ)
    → shape s ≡ dotted
    → parse_fields s 0 0 0 0 ≡ some n
    → parse_addr s ≡ ok (v4_of n)
unfolding parse_addr parse_v4
read_dotted s n h e = rw (parse_addr, h, parse_v4, e) refl

-- The text of an IPv4 address is read back as the address.
pub parse_addr-addr_string :
    (n : ℕ) → n < 2 ^ 32 → parse_addr (addr_string (v4_of n)) ≡ ok (v4_of n)
parse_addr-addr_string n lt =
    let a = n / 2 ^ 24 in
    let b = n / 2 ^ 16 % 256 in
    let c = n / 256 % 256 in
    let d = n % 256 in
    let whole : ((a * 256 + b) * 256 + c) * 256 + d ≡ n = omega arith in
    let read = read_four a b c d (omega arith) (omega arith) (omega arith) (omega arith) in
    ap parse_addr (dotted_four n)
    ∙ read_dotted (four_parts a b c d) (((a * 256 + b) * 256 + c) * 256 + d)
        (shape-four_parts a b c d (omega arith)) read
    ∙ ap (λ m. ok (v4_of m)) whole

-- The bytes below the digits, but for the dot, are not in the text of an IPv4 address.
module _ (b : ℕ) (low : b < 48) (no_dot : b ≢ 46) where
  digit_is_free :
      (m : ℕ)
      → m < 10
      → (t : String) → contains_byte b t ≡ false
      → contains_byte b (append (digit m) t) ≡ false
  unfolding contains_byte
  digit_is_free m lt t h =
      let (c, e, value) = digit_front m lt t in
      let other : (code c == b) ≡ false = ground arith in rw (e, contains_byte, other) h

  number_is_free : (n : ℕ) → n < 256 → contains_byte b (decimal n) ≡ false
  unfolding contains_byte
  number_is_free n lt =
      ap (contains_byte b) (sym (append-nil (decimal n)))
      ∙ decimal_induction (λ s. contains_byte b s ≡ false) (λ s. contains_byte b s ≡ false)
          digit_is_free digit_is_free n lt "" refl

  dot_is_free : (t : String) → contains_byte b t ≡ false → contains_byte b (append "." t) ≡ false
  unfolding contains_byte
  dot_is_free t h =
      let other : (46 == b) ≡ false = ground (arith, no_dot) in
      rw (dot_front t, contains_byte, other) h

  pub addr_string_is_free : (n : ℕ) → n < 2 ^ 32 → contains_byte b (addr_string (v4_of n)) ≡ false
  addr_string_is_free n lt =
      let a = n / 2 ^ 24 in
      let c = n / 2 ^ 16 % 256 in
      let d = n / 256 % 256 in
      let e = n % 256 in
      ap (contains_byte b) (dotted_four n)
      ∙ contains_byte-append b (decimal a) _ (number_is_free a (omega arith)) (
          dot_is_free _ (
            contains_byte-append b (decimal c) _ (number_is_free c (omega arith)) (
              dot_is_free _ (
                contains_byte-append b (decimal d) _ (number_is_free d (omega arith))
                  (dot_is_free _ (number_is_free e (omega arith)))))))
