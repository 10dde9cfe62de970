-- ===== src/Answer/Json/Indexed/Steps.antt =====
-- The walk over the characters by index, step by step, against what is left of the text.
use owid_rust.Prelude.{
  ℕ, zero, suc, ◌+◌, ◌*◌, ◌/◌, ◌-◌, ◌^◌, ◌≤◌, ◌<◌, ◌≡◌, refl, sym, ap, ◌∙◌, List, [], ◌∷◌, true,
  false, none, some, ok, err, ◌>>=◌, length, length-drop, get_elem?, drop, drop-drop, ltb, arith,
  inl, inr, Bool-cases,
}
use owid_rust.Text.{Str, is_whitespace}
use owid_rust.Platform.{Machine}
use owid_rust.Error.{Error}
use owid_rust.Panics.{Checked, panics, returns, bind, value, index, add}
use owid_rust.Panics.InRange.{add_lem}
use owid_rust.Answer.Json.{Reads, skip_space}
use owid_rust.Answer.Json.Indexed.{walk_space}

-- What Rust says of a vector of characters, of four bytes each: it holds `isize::MAX` bytes at most.
pub record IsVec (m : Machine) (chars : Str) : Type 0 where
  pub width : 2 ^ 32 ≤ m.usize_max + 1
  pub held : 4 * length chars ≤ m.usize_max / 2

get_elem?-drop {ℓ} :
    {A : Type ℓ} (xs : List A) (at : ℕ) (x : A) (rest : List A)
    → drop at xs ≡ x ∷ rest
    → get_elem? xs at ≡ some x
get_elem?-drop [] zero x rest h = cc
get_elem?-drop [] (suc at) x rest h = cc
get_elem?-drop (y ∷ xs) zero x rest h = cc
get_elem?-drop (y ∷ xs) (suc at) x rest h = get_elem?-drop xs at x rest h

get_elem?-end {ℓ} : {A : Type ℓ} (xs : List A) (at : ℕ) → length xs ≤ at → get_elem? xs at ≡ none
get_elem?-end [] at h = refl
get_elem?-end (x ∷ xs) zero h = absurd (omega arith)
get_elem?-end (x ∷ xs) (suc at) h = get_elem?-end xs at (omega arith)

module _ (chars : Str) where
  -- The text `s` is what is left from the index on.
  pub record At (at : ℕ) (s : Str) : Type 0 where
    pub within : at ≤ length chars
    pub left : drop at chars ≡ s

  -- A walk that ends where the model's read does, with the same value.
  abbrev pub Tracks : {A : Type 0} → Checked (A × ℕ) Error → Reads A → Type 0
  Tracks (returns (ok (a, at))) (ok (b, s)) = (a ≡ b) × At at s
  Tracks (returns (err e)) (err e') = e ≡ e'
  Tracks _ _ = ⊥

  pub length-At : (at : ℕ) (s : Str) → At at s → length s ≡ length chars - at
  length-At at s h = ap length (sym h.left) ∙ length-drop at chars

  pub get_elem?-At : (at c : ℕ) (s : Str) → At at (c ∷ s) → get_elem? chars at ≡ some c
  get_elem?-At at c s h = get_elem?-drop chars at c s h.left

  pub get_elem?-At-end : (at : ℕ) → At at [] → get_elem? chars at ≡ none
  get_elem?-At-end at h = get_elem?-end chars at (omega (arith, length-At at [] h))

  pub At-some : (at n : ℕ) (s : Str) → n ≤ length s → At at s → At (at + n) (drop n s)
  At-some at n s le h = record {
    within = omega (arith, h.within, length-At at s h);
    left = sym (drop-drop at n chars) ∙ ap (drop n) h.left;
  }

  pub At-next : (at c : ℕ) (s : Str) → At at (c ∷ s) → At (at + 1) s
  At-next at c s h = At-some at 1 (c ∷ s) (omega arith) h

  pub index-At : (at c : ℕ) (s : Str) → At at (c ∷ s) → index {E = Error} chars at ≡ value c
  index-At at c s h = rw (get_elem?-At at c s h)

  pub inside : (at c : ℕ) (s : Str) → At at (c ∷ s) → ltb at (length chars) ≡ true
  inside at c s h = let size = length-At at (c ∷ s) h in ground (arith, size)

  pub outside : (at : ℕ) → At at [] → ltb at (length chars) ≡ false
  outside at h = let size = length-At at [] h in ground (arith, size)

  pub Tracks-ok :
      {A : Type 0} (walk : Checked (A × ℕ) Error) (a : A) (s : Str)
      → Tracks walk (ok (a, s))
      → (at : ℕ) × (walk ≡ value (a, at)) × At at s
  Tracks-ok (returns (ok (b, at))) a s h = (at, rw (h.0) refl, h.1)
  Tracks-ok panics a s h = absurd h
  Tracks-ok (returns (err e)) a s h = absurd h

  pub Tracks-err :
      {A : Type 0} (walk : Checked (A × ℕ) Error) (e : Error)
      → Tracks walk (err e)
      → walk ≡ returns (err e)
  Tracks-err (returns (err e')) e h = rw h refl
  Tracks-err panics e h = absurd h
  Tracks-err (returns (ok r)) e h = absurd h

  -- The walk after one that tracks a read tracks what follows the read.
  pub Tracks-bind :
      {A B : Type 0} (walk : Checked (A × ℕ) Error) (read : Reads A)
      (next : A × ℕ → Checked (B × ℕ) Error) (more : A × Str → Reads B)
      → Tracks walk read
      → ((a : A) (at : ℕ) (s : Str) → At at s → Tracks (next (a, at)) (more (a, s)))
      → Tracks (bind walk next) (read >>= more)
  Tracks-bind (returns (ok (a, at))) (ok (b, s)) next more h k = rw (← h.0) (k a at s h.1)
  Tracks-bind (returns (err e)) (err e') next more h k = h
  Tracks-bind panics read next more h k = absurd h
  Tracks-bind (returns (ok (a, at))) (err e') next more h k = absurd h
  Tracks-bind (returns (err e)) (ok r) next more h k = absurd h

module _ (m : Machine) (chars : Str) (v : IsVec m chars) where
  pub add-At :
      (at n : ℕ) (s : Str) → n ≤ 4 → At chars at s → add {E = Error} m at n ≡ value (at + n)
  add-At at n s le h = add_lem m at n (omega (arith, h.within, v.width, v.held))

  pub walk_space_lem :
      (rounds at : ℕ) (s : Str)
      → At chars at s
      → length s < rounds
      → (next : ℕ) × (walk_space m chars rounds at ≡ value next) × At chars next (skip_space s)
  unfolding walk_space skip_space
  walk_space_lem zero at s h lt = absurd (omega arith)
  walk_space_lem (suc rounds) at [] h lt = (at, rw (outside chars at h), h)
  walk_space_lem (suc rounds) at (c ∷ s) h lt = elim (Bool-cases (is_whitespace c)) [
    | inl space ↦
        let (next, e, there) =
          walk_space_lem rounds (at + 1) s (At-next chars at c s h) (omega arith) in
        (
          next,
          rw (inside chars at c s h) (
              rw (index-At chars at c s h) (rw space (rw (add-At at 1 (c ∷ s) (omega arith) h) e))),
          rw space there,
        )
    | inr other ↦
        (at, rw (inside chars at c s h) (rw (index-At chars at c s h) (rw other)), rw other h)
  ]
