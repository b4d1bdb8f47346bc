-- ===== src/Prelude/Errors.antt =====
-- Go's `(value, error)` results. A Go error is the program's own `*OutOfIPsError`, a text of
-- `fmt.Errorf` or `errors.New`, or an error of a library, whose content the program never reads.
use Prim.Native.String.{String}
use mathlib.Core.Path.{◌≡◌, refl}
use mathlib.Core.Logic.{◌≢◌, ◌⊎◌, inl, inr}
use mathlib.Core.Bool.{Bool}

pub data GoError : Type 0 where
  out_of_ips : (namespace pool : String) → (is_cidr : Bool) → GoError
  errorf : String → GoError
  foreign : String → GoError
  -- The fuel of a modelled loop ran out: the loop of the program would still be running.
  diverged : GoError

infixl 5 ◌>>=◌
-- A value and a nil error, or an error.
pub data Result {ℓ} (V : Type ℓ) : Type ℓ where
  err : GoError → Result V
  ok : V → Result V

-- `if err != nil { return err }`, and the code after it.
abbrev pub ◌>>=◌ {κ ℓ} : {V : Type κ} {W : Type ℓ} → Result V → (V → Result W) → Result W
err failure >>= next = err failure
ok value >>= next = next value

pub Result-cases {ℓ} :
    {A : Type ℓ} (r : Result A) → ((a : A) × (r ≡ ok a)) ⊎ ((e : GoError) × (r ≡ err e))
Result-cases (ok a) = inl (a, refl)
Result-cases (err e) = inr (e, refl)

-- Code that returns no error has gone through its first call without one.
pub >>=-eq-ok {κ ℓ} :
    {V : Type κ} {W : Type ℓ} (first : Result V) (next : V → Result W) {out : W}
    → (first >>= next) ≡ ok out
    → (v : V) × (first ≡ ok v) × (next v ≡ ok out)
>>=-eq-ok (err failure) next done = cc
>>=-eq-ok (ok v) next done = (v, refl, done)

-- The modelled code did not run out of fuel: what it stands for returns.
abbrev pub Ends {ℓ} : {V : Type ℓ} → Result V → Type ℓ
Ends r = r ≢ err diverged

-- A failure that is no run out of fuel, at any type of values.
pub err-Ends {κ ℓ} :
    {V : Type κ} {W : Type ℓ} {e : GoError}
    → ¬ ◌≡◌ {A = Result V} (err e) (err diverged)
    → ¬ ◌≡◌ {A = Result W} (err e) (err diverged)
err-Ends {V = V} {W = W} ends h = ends (same h)
  where
    same : {x y : GoError} → ◌≡◌ {A = Result W} (err x) (err y) → ◌≡◌ {A = Result V} (err x) (err y)
    same h = cc

pub >>=-Ends {κ ℓ} :
    {V : Type κ} {W : Type ℓ} (first : Result V) (next : V → Result W)
    → Ends first
    → ((v : V) → Ends (next v))
    → Ends (first >>= next)
>>=-Ends (err failure) next ends later = err-Ends ends
>>=-Ends (ok v) next ends later = later v
