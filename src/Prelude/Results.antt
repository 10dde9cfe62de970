-- ===== src/Prelude/Results.antt =====
-- Rust's `Result<T, E>`: `?` is the bind of a `do` block.
use mathlib.Core.Path.{◌≡◌, refl}
use mathlib.Core.Bool.{Bool, true, false}
use mathlib.Core.Logic.{◌⊎◌, inl, inr}
use mathlib.Core.Option.{Option, none, some}

pub data Result {ℓ} (A : Type ℓ) (E : Type 0) : Type ℓ where
  ok : A → Result A E
  err : E → Result A E

infixl 5 ◌>>=◌
abbrev pub ◌>>=◌ {ℓ κ} :
    {E : Type 0} {A : Type ℓ} {B : Type κ} → Result A E → (A → Result B E) → Result B E
ok value >>= next = next value
err error >>= next = err error

module _ {ℓ} {A : Type ℓ} {E : Type 0} where
  abbrev pub is_ok : Result A E → Bool
  is_ok (ok a) = true
  is_ok (err e) = false

  abbrev pub map_err : {F : Type 0} → (E → F) → Result A E → Result A F
  map_err f (ok a) = ok a
  map_err f (err e) = err (f e)

  abbrev pub ok_or : Option A → E → Result A E
  ok_or none e = err e
  ok_or (some a) e = ok a

  pub Result-cases : (r : Result A E) → ((a : A) × (r ≡ ok a)) ⊎ ((e : E) × (r ≡ err e))
  Result-cases (ok a) = inl (a, refl)
  Result-cases (err e) = inr (e, refl)

-- What a chain of two steps did, from its answer.
module _ {ℓ κ} {E : Type 0} {A : Type ℓ} {B : Type κ} where
  pub >>=-eq-ok :
      (first : Result A E) (next : A → Result B E) {answer : B}
      → (first >>= next) ≡ ok answer
      → (value : A) × (first ≡ ok value) × (next value ≡ ok answer)
  >>=-eq-ok (ok value) next h = (value, refl, h)
  >>=-eq-ok (err error) next h = cc

abbrev pub is_some {ℓ} : {A : Type ℓ} → Option A → Bool
is_some none = false
is_some (some a) = true

pub some_inj {ℓ} : {A : Type ℓ} {x y : A} → some x ≡ some y → x ≡ y
some_inj h = cc

pub ok_unique {ℓ} :
    {A : Type ℓ} {E : Type 0} {a b : A} {x : Result A E} → x ≡ ok a → x ≡ ok b → a ≡ b
ok_unique h k = cc

pub map_err-ok {ℓ} :
    {A : Type ℓ} {E F : Type 0} (f : E → F) (r : Result A E) {a : A} → map_err f r ≡ ok a → r ≡ ok a
map_err-ok f (ok x) h = cc
map_err-ok f (err e) h = cc
