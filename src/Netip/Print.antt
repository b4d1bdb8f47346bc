-- ===== src/Netip/Print.antt =====
-- Addr.String and Prefix.String.
use kube_vip_cloud_provider.Prelude.{
  ℕ, zero, suc, ◌+◌, ◌/◌, ◌%◌, ◌^◌, String, Bool, ◌&&◌, List, [], ◌∷◌, map, ltb, leb, ◌==◌,
  if◌then◌else◌, join, append_text,
}
use kube_vip_cloud_provider.Netip.{Addr, Prefix, z0, z4, z6noz, z6}

abbrev pub digit : ℕ → String
digit n =
    if n == 0
    then "0"
    else if n == 1
    then "1"
    else if n == 2
    then "2"
    else if n == 3
    then "3"
    else if n == 4
    then "4"
    else if n == 5
    then "5"
    else if n == 6
    then "6"
    else if n == 7
    then "7"
    else if n == 8
    then "8"
    else if n == 9
    then "9"
    else if n == 10
    then "a"
    else if n == 11
    then "b"
    else if n == 12
    then "c"
    else if n == 13
    then "d"
    else if n == 14
    then "e"
    else "f"

-- The number in a base of at most 16, by its digits; the fuel is more than the digits.
unfoldable pub number : ℕ → ℕ → ℕ → String
number base zero n = digit n
number base (suc fuel) n =
    let front = number base fuel (n / base) in
    if ltb n base then digit n else append_text front (digit (n % base))

-- Decimal and hexadecimal, of numbers below 10 ^ 20 and 16 ^ 20.
unfoldable pub decimal : ℕ → String
unfolding number
decimal n = number 10 20 n

unfoldable pub hexadecimal : ℕ → String
unfolding number
hexadecimal n = number 16 20 n

abbrev v4_text : ℕ → String
v4_text n = join "." (
    decimal (n / 2 ^ 24)
    ∷ decimal (n / 2 ^ 16 % 256)
    ∷ decimal (n / 256 % 256)
    ∷ decimal (n % 256)
    ∷ [])

-- The eight groups of an IPv6 address.
abbrev groups : ℕ → List ℕ
groups n =
    n / 2 ^ 112 % 65536
    ∷ n / 2 ^ 96 % 65536
    ∷ n / 2 ^ 80 % 65536
    ∷ n / 2 ^ 64 % 65536
    ∷ n / 2 ^ 48 % 65536
    ∷ n / 2 ^ 32 % 65536
    ∷ n / 2 ^ 16 % 65536
    ∷ n % 65536
    ∷ []

-- The zeros at the front.
abbrev zero_run : List ℕ → ℕ
zero_run [] = 0
zero_run (g ∷ gs) = if g == 0 then suc (zero_run gs) else 0

-- The first longest run of at least two zeros: where it starts and its length.
abbrev longest : List ℕ → ℕ → ℕ → ℕ → ℕ × ℕ
longest [] i start len = (start, len)
longest (g ∷ gs) i start len =
    let l = zero_run (g ∷ gs) in
    let better = leb 2 l && ltb len l in
    longest gs (i + 1) (if better then i else start) (if better then l else len)

abbrev hex_list : List ℕ → List String
hex_list = map hexadecimal

abbrev take_text : ℕ → List String → List String
take_text zero xs = []
take_text (suc n) [] = []
take_text (suc n) (x ∷ xs) = x ∷ take_text n xs

abbrev drop_text : ℕ → List String → List String
drop_text zero xs = xs
drop_text (suc n) [] = []
drop_text (suc n) (x ∷ xs) = drop_text n xs

abbrev v6_text : ℕ → String
v6_text n =
    let texts = hex_list (groups n) in
    let (start, len) = longest (groups n) 0 0 0 in
    if len == 0
    then join ":" texts
    else append_text (join ":" (take_text start texts))
        (append_text "::" (join ":" (drop_text (start + len) texts)))

-- An IPv4 address in IPv6 form, ::ffff:a.b.c.d.
abbrev is_4in6 : ℕ → Bool
is_4in6 n = n / 2 ^ 32 == 65535

abbrev v6_or_mapped : ℕ → String
v6_or_mapped n = if is_4in6 n then append_text "::ffff:" (v4_text (n % 2 ^ 32)) else v6_text n

unfoldable pub addr_string : Addr → String
unfolding decimal hexadecimal join
addr_string a = elim a.zone [
  | z0 ↦ "invalid IP"
  | z4 ↦ v4_text a.value
  | z6noz ↦ v6_or_mapped a.value
  | z6 zone ↦ append_text (v6_or_mapped a.value) (append_text "%" zone)
]

unfoldable pub prefix_string : Prefix → String
unfolding addr_string decimal
prefix_string p = append_text (addr_string p.addr) (append_text "/" (decimal p.bits))
