-- ===== src/Base/Errors.antt =====
-- Errors as values: what a call that may throw returns. Code that keeps state past a throw pairs
-- the result with the state.
use mathlib.Core.Path.{◌≡◌, refl}
use mathlib.Core.Bool.{Bool, true, false}
use mathlib.Core.Option.{Option, none, some}
use mathlib.Core.Logic.{◌⊎◌, inl, inr}

pub data Result {ℓ} (E : Type 0) (A : Type ℓ) : Type ℓ where
  ok : A → Result E A
  err : E → Result E A

infixl 5 ◌>>=◌ ◌>>◌
abbrev pub ◌>>=◌ {ℓ κ} :
    {E : Type 0} {A : Type ℓ} {B : Type κ} → Result E A → (A → Result E B) → Result E B
ok a >>= f = f a
err e >>= f = err e

abbrev pub ◌>>◌ {ℓ} : {E : Type 0} {B : Type ℓ} → Result E (Unit {0}) → Result E B → Result E B
m >> k = m >>= λ _. k

-- `if (!c) throw e`
abbrev pub guard : {E : Type 0} → Bool → E → Result E (Unit {0})
guard true e = ok tt
guard false e = err e

-- `if (c) throw e`
abbrev pub throw_if : {E : Type 0} → Bool → E → Result E (Unit {0})
throw_if true e = err e
throw_if false e = ok tt

abbrev pub or_throw {ℓ} : {E : Type 0} {A : Type ℓ} → Option A → E → Result E A
or_throw none e = err e
or_throw (some a) e = ok a

pub Result-cases {ℓ} :
    {E : Type 0} {A : Type ℓ} (r : Result E A) → ((a : A) × (r ≡ ok a)) ⊎ ((e : E) × (r ≡ err e))
Result-cases (ok a) = inl (a, refl)
Result-cases (err e) = inr (e, refl)

pub >>=-eq-ok {ℓ κ} :
    {E : Type 0} {A : Type ℓ} {B : Type κ} {y : B} (r : Result E A) (next : A → Result E B)
    → (r >>= next) ≡ ok y
    → (x : A) × (r ≡ ok x) × (next x ≡ ok y)
>>=-eq-ok (err e) next h = cc
>>=-eq-ok (ok x) next h = (x, refl, h)

pub ok_injective {ℓ} : {E : Type 0} {A : Type ℓ} {x y : A} → Path (Result E A) (ok x) (ok y) → x ≡ y
ok_injective h = cc

-- A chain of guards that returns has passed each of them.
pub throw_if-ok {ℓ} :
    {E : Type 0} {A : Type ℓ} (b : Bool) (e : E) (k : Result E A) {x : A}
    → (throw_if b e >> k) ≡ ok x
    → (b ≡ false) × (k ≡ ok x)
throw_if-ok true e k h = cc
throw_if-ok false e k h = (refl, h)

pub or_throw-ok {ℓ κ} :
    {E : Type 0} {A : Type ℓ} {B : Type κ} (o : Option A) (e : E) (f : A → Result E B) {x : B}
    → (or_throw o e >>= f) ≡ ok x
    → (a : A) × (o ≡ some a) × (f a ≡ ok x)
or_throw-ok none e f h = cc
or_throw-ok (some a) e f h = (a, refl, h)

-- A chain that throws threw in its first step or behind it.
pub >>=-eq-err {ℓ κ} :
    {E : Type 0} {A : Type ℓ} {B : Type κ} {e : E} (r : Result E A) (next : A → Result E B)
    → (r >>= next) ≡ err e
    → (r ≡ err e) ⊎ ((x : A) × (r ≡ ok x) × (next x ≡ err e))
>>=-eq-err (ok x) next h = inr (x, refl, h)
>>=-eq-err (err e) next h = inl cc

pub some_injective {ℓ} : {A : Type ℓ} {x y : A} → Path (Option A) (some x) (some y) → x ≡ y
some_injective h = cc

pub none-some {ℓ} : {A : Type ℓ} {x : A} → Path (Option A) none (some x) → ⊥
none-some h = cc

pub err_ok {ℓ} : {E : Type 0} {A : Type ℓ} {e : E} {x : A} → Path (Result E A) (err e) (ok x) → ⊥
err_ok h = cc

abbrev pub Throws {ℓ} : {E : Type 0} {A : Type ℓ} → Result E A → Type 0
Throws (ok a) = ⊥
Throws (err e) = Unit
