-- ===== src/Kube/GoMap.antt =====
-- Go's `map[string]string`: nil, or entries of which the first of a key counts. A read of a nil map
-- finds nothing; the program makes a map before it writes to one.
use text.Mathlib.TextPositions.{eq_refl}
use kube_vip_cloud_provider.Prelude.{
  String, ◌≡◌, refl, Bool, true, false, ◌&&◌, Option, none, some, List, [], ◌∷◌, arith, str_eq,
  eq_iff, if◌then◌else◌,
}

pub data StringMap : Type 0 where
  nil : StringMap
  entries : List (String × String) → StringMap

abbrev pub items : StringMap → List (String × String)
items nil = []
items (entries kvs) = kvs

unfoldable pub find : String → List (String × String) → Option String
find key [] = none
find key ((k, v) ∷ kvs) = if str_eq k key then some v else find key kvs

-- `v, ok := m[key]`
unfoldable pub lookup : String → StringMap → Option String
unfolding find
lookup key m = find key (items m)

abbrev pub or_zero : Option String → String
or_zero none = ""
or_zero (some v) = v

-- `m[key]`, the empty text for a missing key.
abbrev pub get : String → StringMap → String
get key m = or_zero (lookup key m)

pub put : String → String → List (String × String) → List (String × String)
put key value [] = (key, value) ∷ []
put key value ((k, v) ∷ kvs) =
    if str_eq k key then (key, value) ∷ kvs else (k, v) ∷ put key value kvs

-- `if m == nil { m = make(map[string]string) }; m[key] = value`
unfoldable pub assign : String → String → StringMap → StringMap
unfolding put
assign key value m = entries (put key value (items m))

pub without : String → List (String × String) → List (String × String)
without key [] = []
without key ((k, v) ∷ kvs) =
    let rest = without key kvs in if str_eq k key then rest else (k, v) ∷ rest

-- `delete(m, key)`, which does nothing on a nil map.
unfoldable pub delete : String → StringMap → StringMap
unfolding without
delete key nil = nil
delete key (entries kvs) = entries (without key kvs)

find-put :
    (key k value : String) (kvs : List (String × String))
    → find k (put key value kvs) ≡ (if str_eq key k then some value else find k kvs)
unfolding find put
find-put key k value [] = refl
find-put key k value ((j, v) ∷ kvs) =
    ground (arith, eq_iff key k, eq_iff j key, eq_iff j k, find-put key k value kvs)

find-without :
    (key k : String) (kvs : List (String × String))
    → find k (without key kvs) ≡ (if str_eq key k then none else find k kvs)
unfolding find without
find-without key k [] = ground arith
find-without key k ((j, v) ∷ kvs) =
    ground (arith, eq_iff key k, eq_iff j key, eq_iff j k, find-without key k kvs)

-- A written key reads back, and the others are as they were.
pub lookup-assign :
    (key k value : String) (m : StringMap)
    → lookup k (assign key value m) ≡ (if str_eq key k then some value else lookup k m)
unfolding lookup assign
lookup-assign key k value m = find-put key k value (items m)

pub lookup-delete :
    (key k : String) (m : StringMap)
    → lookup k (delete key m) ≡ (if str_eq key k then none else lookup k m)
unfolding lookup delete
lookup-delete key k nil = ground arith
lookup-delete key k (entries kvs) = find-without key k kvs

-- How many entries have the key.
abbrev same_value : Option String → Option String → Bool
same_value none none = true
same_value (some v) (some w) = str_eq v w
same_value _ _ = false

-- Every key of the first list has the same value in both.
agrees : List (String × String) → List (String × String) → List (String × String) → Bool
agrees [] kvs ls = true
agrees ((k, _) ∷ rest) kvs ls = same_value (find k kvs) (find k ls) && agrees rest kvs ls

-- reflect.DeepEqual of two maps: both nil or neither, and the same values at the same keys.
unfoldable pub deep_equal : StringMap → StringMap → Bool
unfolding agrees find
deep_equal nil nil = true
deep_equal (entries kvs) (entries ls) = agrees kvs kvs ls && agrees ls kvs ls
deep_equal _ _ = false

same_value_refl : (o : Option String) → same_value o o ≡ true
same_value_refl none = refl
same_value_refl (some v) = eq_refl v

agrees_refl : (kvs ls : List (String × String)) → agrees kvs ls ls ≡ true
unfolding agrees
agrees_refl [] ls = refl
agrees_refl ((k, v) ∷ kvs) ls = rw (agrees, same_value_refl (find k ls), agrees_refl kvs ls) refl

pub deep_equal_refl : (m : StringMap) → deep_equal m m ≡ true
unfolding deep_equal
deep_equal_refl nil = refl
deep_equal_refl (entries kvs) = rw (agrees_refl kvs kvs) refl
