-- ===== src/Prelude/Text.antt =====
-- What the program uses of Go's `strings` package, over the native texts. The separators are ASCII,
-- so splitting by code points is splitting by bytes.
use Prim.Native.Nat.{ℕ}
use Prim.Native.Char.{Char, code}
use Prim.Native.String.{String, ◌++◌ as append}
use mathlib.Core.Bool.{Bool, true, false, ◌||◌}
use mathlib.Core.List.{List, [], ◌∷◌}
use kube_vip_cloud_provider.Prelude.Tests.{◌==◌, if◌then◌else◌}

-- `s` with `c` in front of its first piece.
abbrev onto_first : Char → List String → List String
onto_first c [] = String.◌∷◌ c String.[] ∷ []
onto_first c (p ∷ ps) = String.◌∷◌ c p ∷ ps

-- strings.Split(s, sep) for a separator of one byte: always at least one piece.
unfoldable pub split : ℕ → String → List String
split sep String.[] = "" ∷ []
split sep (String.◌∷◌ c s) =
    let rest = split sep s in if code c == sep then "" ∷ rest else onto_first c rest

-- strings.Contains(s, b) for one byte.
unfoldable pub contains_byte : ℕ → String → Bool
contains_byte b String.[] = false
contains_byte b (String.◌∷◌ c s) = code c == b || contains_byte b s

-- `len(s) == 0`
abbrev pub is_empty : String → Bool
is_empty String.[] = true
is_empty (String.◌∷◌ c s) = false

-- The pieces one after the other, as repeated `WriteString` makes them.
abbrev pub concat : List String → String
concat [] = ""
concat (s ∷ ss) = append s (concat ss)

-- strings.Join(ss, sep)
unfoldable pub join : String → List String → String
join sep [] = ""
join sep (s ∷ []) = s
join sep (s ∷ t ∷ ss) = append s (append sep (join sep (t ∷ ss)))

-- The pieces one after the other.
abbrev pub append_text : String → String → String
append_text s t = append s t

-- One character's code, or 0 for none: `s[0]`.
abbrev pub first_code : String → ℕ
first_code String.[] = 0
first_code (String.◌∷◌ c s) = code c
