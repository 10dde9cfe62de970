-- ===== src/Prelude/Lists.antt =====
-- Lists measured and indexed by native numbers, under the library's names, and the slice
-- operations of the standard library that the crate uses.
use Prim.Native.Nat.{ℕ, zero, suc, ◌+◌, ◌-◌, ◌≤◌, ◌<◌, min}
use mathlib.Core.Path.{◌≡◌, refl, ap}
use mathlib.Core.Logic.{◌≢◌, inl, inr}
use mathlib.Core.Bool.{Bool, true, false, ◌&&◌, ◌||◌}
use mathlib.Core.List.{List, [], ◌∷◌, ◌++◌}
use mathlib.Core.Option.{Option, none, some}
use mathlib.Core.Option
use native.Mathlib.Omega.{arith}
use owid_rust.Prelude.Tests.{if◌then◌else◌, Bool-cases}

module _ {ℓ} {A : Type ℓ} where
  abbrev pub length : List A → ℕ
  length [] = 0
  length (x ∷ xs) = suc (length xs)

  abbrev pub get_elem? : List A → ℕ → Option A
  get_elem? [] i = none
  get_elem? (x ∷ xs) zero = some x
  get_elem? (x ∷ xs) (suc i) = get_elem? xs i

  abbrev pub get_or : List A → ℕ → A → A
  get_or [] i d = d
  get_or (x ∷ xs) zero d = x
  get_or (x ∷ xs) (suc i) d = get_or xs i d

  abbrev pub take : ℕ → List A → List A
  take zero xs = []
  take (suc n) [] = []
  take (suc n) (x ∷ xs) = x ∷ take n xs

  abbrev pub drop : ℕ → List A → List A
  drop zero xs = xs
  drop (suc n) [] = []
  drop (suc n) (x ∷ xs) = drop n xs

  -- `iter().any(..)`
  abbrev pub any : (A → Bool) → List A → Bool
  any p [] = false
  any p (x ∷ xs) = p x || any p xs

  -- `iter().all(..)`
  abbrev pub all : (A → Bool) → List A → Bool
  all p [] = true
  all p (x ∷ xs) = p x && all p xs

  -- `iter().position(..)`
  abbrev pub position : (A → Bool) → List A → Option ℕ
  position p [] = none
  position p (x ∷ xs) = if p x then some 0 else Option.map suc (position p xs)

  abbrev pub All {κ} : (A → Type κ) → List A → Type κ
  All P [] = Unit {κ}
  All P (x ∷ xs) = P x × All P xs

  pub length-append : (xs ys : List A) → length (xs ++ ys) ≡ length xs + length ys
  length-append [] ys = omega arith
  length-append (x ∷ xs) ys = omega (arith, length-append xs ys)

  pub length-take : (n : ℕ) (xs : List A) → length (take n xs) ≡ min n (length xs)
  length-take zero xs = omega arith
  length-take (suc n) [] = omega arith
  length-take (suc n) (x ∷ xs) = omega (arith, length-take n xs)

  pub length-drop : (n : ℕ) (xs : List A) → length (drop n xs) ≡ length xs - n
  length-drop zero xs = omega arith
  length-drop (suc n) [] = omega arith
  length-drop (suc n) (x ∷ xs) = omega (arith, length-drop n xs)

  pub take-append-drop : (n : ℕ) (xs : List A) → take n xs ++ drop n xs ≡ xs
  take-append-drop zero xs = refl
  take-append-drop (suc n) [] = refl
  take-append-drop (suc n) (x ∷ xs) = rw (take-append-drop n xs)

module _ {ℓ} {A : Type ℓ} where
  pub take-length : (xs ys : List A) (n : ℕ) → n ≡ length xs → take n (xs ++ ys) ≡ xs
  take-length [] ys zero h = refl
  take-length [] ys (suc n) h = absurd (omega arith)
  take-length (x ∷ xs) ys zero h = absurd (omega arith)
  take-length (x ∷ xs) ys (suc n) h = ap (λ t. x ∷ t) (take-length xs ys n (omega arith))

  pub drop-length : (xs ys : List A) (n : ℕ) → n ≡ length xs → drop n (xs ++ ys) ≡ ys
  drop-length [] ys zero h = refl
  drop-length [] ys (suc n) h = absurd (omega arith)
  drop-length (x ∷ xs) ys zero h = absurd (omega arith)
  drop-length (x ∷ xs) ys (suc n) h = drop-length xs ys n (omega arith)

  pub drop-drop : (m n : ℕ) (xs : List A) → drop n (drop m xs) ≡ drop (m + n) xs
  drop-drop zero n xs = let e : 0 + n ≡ n = omega arith in rw e
  drop-drop (suc m) zero [] = let e : suc m + 0 ≡ suc m = omega arith in rw e
  drop-drop (suc m) (suc n) [] = let e : suc m + suc n ≡ suc (suc (m + n)) = omega arith in rw e
  drop-drop (suc m) n (x ∷ xs) =
      let e : suc m + n ≡ suc (m + n) = omega arith in rw e (drop-drop m n xs)

  pub get_or-drop : (m i : ℕ) (xs : List A) (d : A) → get_or (drop m xs) i d ≡ get_or xs (m + i) d
  get_or-drop zero i xs d = let e : 0 + i ≡ i = omega arith in rw e
  get_or-drop (suc m) i [] d = refl
  get_or-drop (suc m) i (x ∷ xs) d =
      let e : suc m + i ≡ suc (m + i) = omega arith in rw e (get_or-drop m i xs d)

  pub take_all : (xs : List A) (n : ℕ) → length xs ≤ n → take n xs ≡ xs
  take_all [] zero h = refl
  take_all [] (suc n) h = refl
  take_all (x ∷ xs) zero h = absurd (omega arith)
  take_all (x ∷ xs) (suc n) h = ap (λ t. x ∷ t) (take_all xs n (omega arith))

  pub length-eq-zero : (xs : List A) → length xs ≡ 0 → xs ≡ []
  length-eq-zero [] h = refl
  length-eq-zero (x ∷ xs) h = absurd (omega arith)

pub map-suc-ne-zero : (o : Option ℕ) → Option.map suc o ≢ some 0
map-suc-ne-zero none h = cc
map-suc-ne-zero (some i) h = cc

pub map-suc-eq-some : (o : Option ℕ) (i : ℕ) → Option.map suc o ≡ some (suc i) → o ≡ some i
map-suc-eq-some none i h = cc
map-suc-eq-some (some j) i h = cc

module _ {ℓ} {A : Type ℓ} where
  pub take-append_le : (k : ℕ) (xs ys : List A) → k ≤ length xs → take k (xs ++ ys) ≡ take k xs
  take-append_le zero xs ys h = refl
  take-append_le (suc k) [] ys h = absurd (omega arith)
  take-append_le (suc k) (x ∷ xs) ys h = ap (λ t. x ∷ t) (take-append_le k xs ys (omega arith))

  pub drop-append_le :
      (k : ℕ) (xs ys : List A) → k ≤ length xs → drop k (xs ++ ys) ≡ drop k xs ++ ys
  drop-append_le zero xs ys h = refl
  drop-append_le (suc k) [] ys h = absurd (omega arith)
  drop-append_le (suc k) (x ∷ xs) ys h = drop-append_le k xs ys (omega arith)

  pub get_or-append_lt :
      (xs ys : List A) (i : ℕ) (d : A) → i < length xs → get_or (xs ++ ys) i d ≡ get_or xs i d
  get_or-append_lt [] ys i d h = absurd (omega arith)
  get_or-append_lt (x ∷ xs) ys zero d h = refl
  get_or-append_lt (x ∷ xs) ys (suc i) d h = get_or-append_lt xs ys i d (omega arith)

  -- A position that is found in a window stays where it is when the list and the window grow.
  pub position-append :
      (p : A → Bool) (k j : ℕ) (xs ys : List A) (i : ℕ)
      → position p (take k xs) ≡ some i
      → k ≤ j
      → (position p (take j (xs ++ ys)) ≡ some i) × (i < length xs)
  position-append p zero j xs ys i h le = cc
  position-append p (suc k) j [] ys i h le = cc
  position-append p (suc k) zero (x ∷ xs) ys i h le = absurd (omega arith)
  position-append p (suc k) (suc j) (x ∷ xs) ys zero h le = elim (Bool-cases (p x)) [
    | inl e ↦ (rw e, omega arith)
    | inr e ↦ absurd (map-suc-ne-zero _ (rw e at h))
  ]
  position-append p (suc k) (suc j) (x ∷ xs) ys (suc i) h le = elim (Bool-cases (p x)) [
    | inl e ↦ cc (rw e at h)
    | inr e ↦
        let (found, lt) =
          position-append p k j xs ys i (map-suc-eq-some _ i (rw e at h)) (omega arith) in
        (rw (e, found), omega arith)
  ]

module _ {ℓ κ} {A : Type ℓ} (P : A → Type κ) where
  pub All-append : (xs ys : List A) → All P xs → All P ys → All P (xs ++ ys)
  All-append [] ys h k = k
  All-append (x ∷ xs) ys (h, hs) k = (h, All-append xs ys hs k)

  pub All-take : (n : ℕ) (xs : List A) → All P xs → All P (take n xs)
  All-take zero xs h = tt
  All-take (suc n) [] h = tt
  All-take (suc n) (x ∷ xs) (h, hs) = (h, All-take n xs hs)

  pub All-drop : (n : ℕ) (xs : List A) → All P xs → All P (drop n xs)
  All-drop zero xs h = h
  All-drop (suc n) [] h = tt
  All-drop (suc n) (x ∷ xs) (h, hs) = All-drop n xs hs
