-- ===== src/Prelude/Splitting.antt =====
-- Splitting a text that was joined.
use Prim.Native.Nat.{ℕ}
use Prim.Native.Char.{Char, code}
use Prim.Native.String.{String, ◌++◌ as append}
use text.Mathlib.TextLemmas.{cons-append, nil-append}
use mathlib.Core.Path.{◌≡◌, refl, ap, ◌∙◌}
use mathlib.Core.Logic.{inl, inr}
use mathlib.Core.Bool.{true, false}
use mathlib.Core.List.{List, [], ◌∷◌}
use kube_vip_cloud_provider.Prelude.Tests.{◌==◌, Bool-cases, ==_iff}
use kube_vip_cloud_provider.Prelude.Lists.{All}
use kube_vip_cloud_provider.Prelude.Text.{split, contains_byte, join, is_empty}

pub contains_byte-append :
    (b : ℕ) (s t : String)
    → contains_byte b s ≡ false
    → contains_byte b t ≡ false
    → contains_byte b (append s t) ≡ false
unfolding contains_byte
contains_byte-append b String.[] t h k = rw (nil-append t) k
contains_byte-append b (String.◌∷◌ c s) t h k = elim (Bool-cases (code c == b)) [
  | inl e ↦ absurd (cc (let q : true ≡ false = rw (contains_byte, e) at h in q))
  | inr e ↦
      rw (cons-append c s t, contains_byte, e)
        (contains_byte-append b s t (rw (contains_byte, e) at h) k)
]

split_none : (sep : ℕ) (s : String) → contains_byte sep s ≡ false → split sep s ≡ s ∷ []
unfolding split contains_byte
split_none sep String.[] h = refl
split_none sep (String.◌∷◌ c s) h = elim (Bool-cases (code c == sep)) [
  | inl e ↦ absurd (cc (let q : true ≡ false = rw (contains_byte, e) at h in q))
  | inr e ↦ rw (split, e, split_none sep s (rw (contains_byte, e) at h)) refl
]

-- The piece before the first separator.
pub split_front :
    (d : Char) (s t : String)
    → contains_byte (code d) s ≡ false
    → split (code d) (append s (String.◌∷◌ d t)) ≡ s ∷ split (code d) t
unfolding split contains_byte
split_front d String.[] t h =
    let e : (code d == code d) ≡ true = (==_iff (code d) (code d)).1 refl in
    rw (nil-append (String.◌∷◌ d t), split, e) refl
split_front d (String.◌∷◌ c s) t h = elim (Bool-cases (code c == code d)) [
  | inl e ↦ absurd (cc (let q : true ≡ false = rw (contains_byte, e) at h in q))
  | inr e ↦
      rw
        (cons-append c s (String.◌∷◌ d t), split, e, split_front d s t (rw (contains_byte, e) at h))
        refl
]

-- A character in front of a text.
pub char_front : (d : Char) (t : String) → append (String.◌∷◌ d String.[]) t ≡ String.◌∷◌ d t
char_front d t = cons-append d String.[] t ∙ ap (λ s. String.◌∷◌ d s) (nil-append t)

-- Texts that do not have the separator are the pieces of the text that joins them.
pub split-join :
    (d : Char) (s : String) (ss : List String)
    → All (λ t. contains_byte (code d) t ≡ false) (s ∷ ss)
    → split (code d) (join (String.◌∷◌ d String.[]) (s ∷ ss)) ≡ s ∷ ss
unfolding join
split-join d s [] h = split_none (code d) s h.0
split-join d s (t ∷ ss) h =
    let rest = join (String.◌∷◌ d String.[]) (t ∷ ss) in
    ap (λ x. split (code d) (append s x)) (char_front d rest)
    ∙ split_front d s rest h.0
    ∙ ap (λ pieces. s ∷ pieces) (split-join d t ss h.1)

-- Two texts with a separator between them.
pub split_two :
    (d : Char) (s t : String)
    → contains_byte (code d) s ≡ false
    → contains_byte (code d) t ≡ false
    → split (code d) (append s (append (String.◌∷◌ d String.[]) t)) ≡ s ∷ t ∷ []
split_two d s t h k =
    ap (λ x. split (code d) (append s x)) (char_front d t)
    ∙ split_front d s t h
    ∙ ap (λ pieces. s ∷ pieces) (split_none (code d) t k)

pub is_empty-append : (s t : String) → is_empty t ≡ false → is_empty (append s t) ≡ false
is_empty-append String.[] t h = rw (nil-append t) h
is_empty-append (String.◌∷◌ c s) t h = rw (cons-append c s t) refl
