-- ===== src/Prelude/Results.antt =====
-- Rust's `Result`, with the error type first as a parameter, and `?` as the bind of a `do` block.
use mathlib.Core.Path.{◌≡◌, refl, subst}
use helbreath_backend.Prelude.Tests.{if◌then◌else◌}
use mathlib.Core.Bool.{Bool, true, false}
use mathlib.Core.Option.{Option, none, some}
use mathlib.Core.Logic.{◌⊎◌, inl, inr}

pub data Result {ℓ κ} (E : Type κ) (A : Type ℓ) : Type (ℓ ⊔ κ) where
  ok : A → Result E A
  err : E → Result E A

infixl 5 ◌>>=◌ ◌>>◌
abbrev pub ◌>>=◌ {ℓ κ μ} :
    {E : Type μ} {A : Type ℓ} {B : Type κ} → Result E A → (A → Result E B) → Result E B
ok a >>= f = f a
err e >>= f = err e

abbrev pub ◌>>◌ {ℓ μ} : {E : Type μ} {B : Type ℓ} → Result E (Unit {0}) → Result E B → Result E B
m >> k = m >>= λ _. k

-- `if bad { return Err(e) }`
abbrev pub fail_if {μ} : {E : Type μ} → Bool → E → Result E (Unit {0})
fail_if true e = err e
fail_if false e = ok tt

-- `ok_or`
abbrev pub ok_or {ℓ μ} : {E : Type μ} {A : Type ℓ} → Option A → E → Result E A
ok_or none e = err e
ok_or (some a) e = ok a

-- `map_err`
abbrev pub map_err {ℓ κ μ} :
    {E : Type κ} {F : Type μ} {A : Type ℓ} → (E → F) → Result E A → Result F A
map_err f (ok a) = ok a
map_err f (err e) = err (f e)

module _ {ℓ κ} {E : Type κ} {A : Type ℓ} where
  pub Result-cases : (r : Result E A) → ((a : A) × (r ≡ ok a)) ⊎ ((e : E) × (r ≡ err e))
  Result-cases (ok a) = inl (a, refl)
  Result-cases (err e) = inr (e, refl)

-- Inversion of a successful bind.
pub >>=-eq-ok {ℓ κ μ} :
    {E : Type μ} {A : Type ℓ} {B : Type κ} {result : B} (first : Result E A)
    (then_run : A → Result E B)
    → (first >>= then_run) ≡ ok result
    → (value : A) × (first ≡ ok value) × (then_run value ≡ ok result)
>>=-eq-ok (ok value) then_run same = (value, refl, same)
>>=-eq-ok (err reason) then_run same = cc

-- What a computation returns, if it returns, has the property `P`: one rule for each way to build it.
pub record Yields {ℓ κ μ} {E : Type μ} {A : Type ℓ} (P : A → Type κ) (r : Result E A)
    : Type (ℓ ⊔ κ ⊔ μ) where
  pub at : (a : A) → r ≡ ok a → P a

module _ {ℓ κ μ} {E : Type μ} {A : Type ℓ} {P : A → Type κ} where
  pub Yields-ok : (a : A) → P a → Yields {E = E} P (ok a)
  Yields-ok a h = record { at = λ b e. subst P (cc) h }

  pub Yields-err : (e : E) → Yields P (err e)
  Yields-err e = record { at = λ b h. cc }

  pub Yields-if :
      (b : Bool) (m n : Result E A) → Yields P m → Yields P n → Yields P (if b then m else n)
  Yields-if true m n km kn = km
  Yields-if false m n km kn = kn

module _ {ℓ κ μ} {E : Type μ} {A : Type ℓ} {P : A → Type κ} where
  pub Yields-guard : (b : Bool) (e : E) (m : Result E A) → Yields P m → Yields P (fail_if b e >> m)
  Yields-guard true e m h = Yields-err e
  Yields-guard false e m h = h

module _ {ℓ κ ν μ} {E : Type μ} {A : Type ℓ} {B : Type ν} {P : B → Type κ} where
  pub Yields-bind :
      (m : Result E A) (f : A → Result E B)
      → ((a : A) → m ≡ ok a → Yields P (f a))
      → Yields P (m >>= f)
  Yields-bind (ok a) f h = h a refl
  Yields-bind (err e) f h = record { at = λ b p. cc }

pub ruleset yields_rules = (Yields-ok, Yields-err, Yields-if, Yields-guard, Yields-bind)

pub ok_or-eq {ℓ μ} :
    {A : Type ℓ} {E : Type μ} (o : Option A) (e : E) (a : A) → ok_or o e ≡ ok a → o ≡ some a
ok_or-eq none e a h = cc
ok_or-eq (some b) e a h = cc

pub map_err-ok {ℓ κ μ} :
    {E : Type κ} {F : Type μ} {A : Type ℓ} (f : E → F) (r : Result E A) (a : A)
    → map_err f r ≡ ok a
    → r ≡ ok a
map_err-ok f (ok b) a h = cc
map_err-ok f (err e) a h = cc
