-- ===== src/Base/Results.antt =====
-- Exceptions: what a Python call returns, or the exception that it raises.
use mathlib.Core.Path.{◌≡◌, refl}
use mathlib.Core.Option.{Option, none, some}
use mathlib.Core.Bool.{Bool, true, false}
use cps344finalproject.Base.Tests.{if◌then◌else◌}
use native.Mathlib.Omega.{arith}

-- `out_of_fuel` is no exception of the program: it marks a bounded loop that was cut off.
pub data Error : Type 0 where
  key_error value_error index_error out_of_fuel : Error

pub data Result {ℓ} (A : Type ℓ) : Type ℓ where
  ok : A → Result A
  err : Error → Result A

infixl 5 ◌>>=◌
-- The next statement, unless an exception ends the block.
abbrev pub ◌>>=◌ {ℓ κ} : {A : Type ℓ} {B : Type κ} → Result A → (A → Result B) → Result B
err raised >>= next = err raised
ok value >>= next = next value

-- The value of an optional entry, or the given exception.
abbrev pub or_raise {ℓ} : {A : Type ℓ} → Option A → Error → Result A
or_raise none e = err e
or_raise (some a) e = ok a

pub >>=-eq-ok {ℓ κ} :
    {A : Type ℓ} {B : Type κ} (call : Result A) (next : A → Result B) {y : B}
    → (call >>= next) ≡ ok y
    → (x : A) × (call ≡ ok x) × (next x ≡ ok y)
>>=-eq-ok (err raised) next returned = cc
>>=-eq-ok (ok x) next returned = (x, refl, returned)

pub or_raise-eq-ok {ℓ} :
    {A : Type ℓ} (o : Option A) (e : Error) {a : A} → or_raise o e ≡ ok a → o ≡ some a
or_raise-eq-ok none e h = cc
or_raise-eq-ok (some b) e h = cc

pub ok-injective {ℓ} : {A : Type ℓ} {a b : A} → ◌≡◌ {A = Result A} (ok a) (ok b) → a ≡ b
ok-injective h = cc

-- Whether a call returns.
abbrev pub is_ok {ℓ} : {A : Type ℓ} → Result A → Bool
is_ok (ok a) = true
is_ok (err e) = false

pub is_ok-eq-ok {ℓ} : {A : Type ℓ} (m : Result A) → is_ok m ≡ true → (a : A) × (m ≡ ok a)
is_ok-eq-ok (ok a) h = (a, refl)
is_ok-eq-ok (err e) h = absurd (ground arith)

-- A block returns when each of its statements does.
pub >>=-is_ok {ℓ κ} :
    {A : Type ℓ} {B : Type κ} (m : Result A) (f : A → Result B)
    → is_ok m ≡ true
    → ((a : A) → m ≡ ok a → is_ok (f a) ≡ true)
    → is_ok (m >>= f) ≡ true
>>=-is_ok (ok a) f h k = k a refl
>>=-is_ok (err e) f h k = absurd (ground arith)

-- A call returns a value with a property.
pub data Returns {ℓ} {A : Type ℓ} (P : A → Type 0) : Result A → Type ℓ where
  returned : {a : A} → P a → Returns P (ok a)

pub Returns-bind {ℓ κ} :
    {A : Type ℓ} {B : Type κ} {P : A → Type 0} {Q : B → Type 0} {m : Result A} {f : A → Result B}
    → Returns P m
    → ((a : A) → P a → Returns Q (f a))
    → Returns Q (m >>= f)
Returns-bind (returned {a} h) k = k a h

pub Returns-is_ok {ℓ} : {A : Type ℓ} {P : A → Type 0} {m : Result A} → Returns P m → is_ok m ≡ true
Returns-is_ok (returned h) = refl

pub Returns-value {ℓ} : {A : Type ℓ} {P : A → Type 0} {a : A} → Returns P (ok a) → P a
Returns-value (returned h) = h

pub Returns-result {ℓ} :
    {A : Type ℓ} {P : A → Type 0} {m : Result A} → Returns P m → (a : A) × (m ≡ ok a) × P a
Returns-result (returned {a} h) = (a, refl, h)

pub Returns-if {ℓ} :
    {A : Type ℓ} {P : A → Type 0} (b : Bool) {m n : Result A}
    → (b ≡ true → Returns P m)
    → (b ≡ false → Returns P n)
    → Returns P (if b then m else n)
Returns-if true h k = h refl
Returns-if false h k = k refl

pub Returns-map {ℓ} :
    {A : Type ℓ} {P Q : A → Type 0} {m : Result A}
    → ((a : A) → P a → Q a)
    → Returns P m
    → Returns Q m
Returns-map f (returned {a} h) = returned (f a h)
