-- ===== src/Netip/Parse.antt =====
-- netip.ParseAddr and netip.ParsePrefix, on texts of ASCII. Their errors are opaque.
use Prim.Native.Char.{code}
use mathlib.Core.List.{reverse, foldl}
use kube_vip_cloud_provider.Prelude.{
  ℕ, zero, suc, ◌+◌, ◌-◌, ◌*◌, ◌/◌, ◌%◌, String, Bool, true, false, not, ◌&&◌, ◌||◌, Option, none,
  some, List, [], ◌∷◌, ◌++◌, ltb, leb, ◌==◌, if◌then◌else◌, is_empty, length, Result, ◌>>=◌,
  foreign, ok, err,
}
use kube_vip_cloud_provider.Netip.{Addr, Prefix, z4, z6noz, z6, bit_len}

abbrev is_digit : ℕ → Bool
is_digit c = leb b'0' c && leb c b'9'

-- parseIPv4Fields: the octet so far and its digits, the octets before it and their value.
unfoldable pub parse_fields : String → ℕ → ℕ → ℕ → ℕ → Option ℕ
parse_fields String.[] val digits pos acc = if ltb pos 3 then none else some (acc * 256 + val)
parse_fields (String.◌∷◌ ch s) val digits pos acc =
    let c = code ch in
    let val' = val * 10 + (c - b'0') in
    let more = parse_fields s val' (digits + 1) pos acc in
    let field = parse_fields s 0 0 (pos + 1) (acc * 256 + val) in
    if is_digit c
    then if digits == 1 && val == 0 then none else if ltb 255 val' then none else more
    else if c == b'.'
    then if digits == 0 || is_empty s then none else if pos == 3 then none else field
    else none

unfoldable pub parse_v4 : String → Option Addr
unfolding parse_fields
parse_v4 s = elim (parse_fields s 0 0 0 0) [
  | none ↦ none
  | some n ↦ some (record { value = n; zone = z4 })
]

abbrev hex_value : ℕ → Option ℕ
hex_value c =
    if is_digit c
    then some (c - b'0')
    else if leb b'a' c && leb c b'f'
    then some (c - b'a' + 10)
    else if leb b'A' c && leb c b'F'
    then some (c - b'A' + 10)
    else none

-- The hexadecimal digits at the front: how many, their value, and what follows; at most four.
pub data HexRun : Type 0 where
  too_long : HexRun
  run : (digits value : ℕ) → String → HexRun

take_hex : String → ℕ → ℕ → HexRun
take_hex String.[] off acc = run off acc ""
take_hex (String.◌∷◌ ch s) off acc = elim (hex_value (code ch)) [
  | none ↦ run off acc (String.◌∷◌ ch s)
  | some d ↦ elim (ltb 3 off) [ true ↦ too_long | false ↦ take_hex s (off + 1) (acc * 16 + d) ]
]

abbrev is_none : Option ℕ → Bool
is_none none = true
is_none (some n) = false

-- Where the groups end: the groups, last first, where `::` stood, and what was not read.
pub record Groups : Type 0 where
  pub groups : List ℕ
  pub ellipsis : Option ℕ
  pub left : String

-- The embedded IPv4 address at the end, with `room` groups left.
trailing_v4 : ℕ → String → List ℕ → Option ℕ → Option Groups
unfolding parse_fields
trailing_v4 room s groups ellipsis =
    if is_none ellipsis && not (room == 2)
    then none
    else if ltb room 2
    then none
    else elim (parse_fields s 0 0 0 0) [
      | none ↦ none
      | some n ↦
          some (record { groups = n % 65536 ∷ n / 65536 ∷ groups; ellipsis = ellipsis; left = "" })
    ]

-- The loop of parseIPv6, by the groups that there is room for.
v6_loop : ℕ → String → List ℕ → Option ℕ → Option Groups
unfolding take_hex trailing_v4
v6_loop zero s groups ellipsis = some (record { groups = groups; ellipsis = ellipsis; left = s })
v6_loop (suc room) s groups ellipsis = elim (take_hex s 0 0) [
  | too_long ↦ none
  | run off acc String.[] ↦
      if off == 0
      then none
      else some (record { groups = acc ∷ groups; ellipsis = ellipsis; left = "" })
  | run off acc (String.◌∷◌ c String.[]) ↦
      if off == 0
      then none
      else if code c == b'.'
      then trailing_v4 (suc room) s groups ellipsis
      else none
  | run off acc (String.◌∷◌ c (String.◌∷◌ d rest)) ↦
      let at_colon = v6_loop room (String.◌∷◌ d rest) (acc ∷ groups) ellipsis in
      let at_ellipsis = v6_loop room rest (acc ∷ groups) (some (length (acc ∷ groups))) in
      if off == 0
      then none
      else if code c == b'.'
      then trailing_v4 (suc room) s groups ellipsis
      else if not (code c == b':')
      then none
      else if not (code d == b':')
      then at_colon
      else if not (is_none ellipsis)
      then none
      else if is_empty rest
      then some
          (record { groups = acc ∷ groups; ellipsis = some (length (acc ∷ groups)); left = "" })
      else at_ellipsis
]

abbrev take : ℕ → List ℕ → List ℕ
take zero xs = []
take (suc n) [] = []
take (suc n) (x ∷ xs) = x ∷ take n xs

abbrev drop : ℕ → List ℕ → List ℕ
drop zero xs = xs
drop (suc n) [] = []
drop (suc n) (x ∷ xs) = drop n xs

abbrev zeros : ℕ → List ℕ
zeros zero = []
zeros (suc n) = 0 ∷ zeros n

-- The eight groups, `::` filled up with zeros.
expand : Groups → Option (List ℕ)
expand g =
    if not (is_empty g.left)
    then none
    else if ltb (length g.groups) 8
    then elim g.ellipsis [
      | none ↦ none
      | some e ↦
          let gs = reverse g.groups in some (take e gs ++ zeros (8 - length g.groups) ++ drop e gs)
    ]
    else if is_none g.ellipsis
    then some (reverse g.groups)
    else none

abbrev of_groups : List ℕ → ℕ
of_groups = foldl (λ acc g. acc * 65536 + g) 0

-- The address with its zone, which is empty for none.
abbrev with_zone : String → ℕ → Addr
with_zone zone n = record { value = n; zone = if is_empty zone then z6noz else z6 zone }

abbrev of_option : Option Groups → Option (List ℕ)
unfolding expand
of_option none = none
of_option (some g) = expand g

-- parseIPv6 of the part before the zone.
v6_groups : String → Option (List ℕ)
unfolding v6_loop expand
v6_groups (String.◌∷◌ a (String.◌∷◌ b s)) =
    if code a == b':' && code b == b':'
    then if is_empty s then some (zeros 8) else of_option (v6_loop 8 s [] (some 0))
    else of_option (v6_loop 8 (String.◌∷◌ a (String.◌∷◌ b s)) [] none)
v6_groups s = of_option (v6_loop 8 s [] none)

-- The part before the first `%`, and the zone after it if there is one.
abbrev split_zone : String → String × Option String
split_zone String.[] = ("", none)
split_zone (String.◌∷◌ c s) =
    let (front, zone) = split_zone s in
    if code c == b'%' then ("", some s) else (String.◌∷◌ c front, zone)

abbrev zoned : Option (List ℕ) → String → Option Addr
zoned none zone = none
zoned (some gs) zone = some (with_zone zone (of_groups gs))

unfoldable pub parse_v6 : String → Option Addr
unfolding v6_groups
parse_v6 s =
    let (front, zone) = split_zone s in
    elim zone [
      | none ↦ zoned (v6_groups front) ""
      | some z ↦ if is_empty z then none else zoned (v6_groups front) z
    ]

-- What the first of `.`, `:` and `%` says of the text.
pub data Shape : Type 0 where
  dotted colons neither : Shape

unfoldable pub shape : String → Shape
shape String.[] = neither
shape (String.◌∷◌ ch s) =
    let c = code ch in
    let rest = shape s in
    if c == b'.' then dotted else if c == b':' then colons else if c == b'%' then neither else rest

abbrev pub or_fail : String → Option Addr → Result Addr
or_fail s none = err (foreign s)
or_fail s (some a) = ok a

unfoldable pub parse_addr : String → Result Addr
unfolding shape parse_v4 parse_v6
parse_addr s = elim (shape s) [
  | dotted ↦ or_fail s (parse_v4 s)
  | colons ↦ or_fail s (parse_v6 s)
  | neither ↦ err (foreign s)
]

-- strconv.Atoi of a text with no sign.
pub decimal_value : String → ℕ → Option ℕ
decimal_value String.[] n = some n
decimal_value (String.◌∷◌ ch s) n =
    let rest = decimal_value s (n * 10 + (code ch - b'0')) in
    if is_digit (code ch) then rest else none

-- The parts before and after the last `/`.
abbrev pub split_slash : String → Option (String × String)
split_slash String.[] = none
split_slash (String.◌∷◌ c s) = elim (split_slash s) [
  | some (front, back) ↦ some (String.◌∷◌ c front, back)
  | none ↦ if code c == b'/' then some ("", s) else none
]

-- A length of two digits or more begins with 1 to 9.
abbrev pub leading_ok : String → Bool
leading_ok String.[] = true
leading_ok (String.◌∷◌ c String.[]) = true
leading_ok (String.◌∷◌ c s) = leb b'1' (code c) && leb (code c) b'9'

abbrev pub prefix_of : Addr → String → Result Prefix
prefix_of a bits = elim (decimal_value bits 0) [
  | none ↦ err (foreign bits)
  | some n ↦
      if ltb (bit_len a.zone) n then err (foreign bits) else ok (record { addr = a; bits = n })
]

abbrev pub has_zone : Addr → Bool
has_zone a = elim a.zone [ z6 s ↦ true | _ ↦ false ]

unfoldable pub parse_prefix : String → Result Prefix
unfolding decimal_value parse_addr
parse_prefix s = elim (split_slash s) [
  | none ↦ err (foreign s)
  | some (front, bits) ↦ do
    a ← parse_addr front
    if has_zone a
        then err (foreign s)
        else if not (leading_ok bits) || is_empty bits
        then err (foreign s)
        else prefix_of a bits
]
