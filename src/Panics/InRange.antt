-- ===== src/Panics/InRange.antt =====
-- Where the indices are in range and the sums do not overflow.
use owid_rust.Prelude.{
  ℕ, zero, suc, List, ◌∷◌, [], ◌+◌, ◌-◌, ◌^◌, ◌/◌, ◌≤◌, ◌<◌, ◌≡◌, refl, Result, ok, err, ◌>>=◌,
  length, get_or, take, drop, ◌==◌, arith,
}
use owid_rust.Prelude.Int.{sub_ℕ}
use owid_rust.Platform.{Machine}
use owid_rust.Io.{signature_length}
use owid_rust.Panics.{
  Checked, returns, bind, value, assert, index, slice_from, slice_to, slice, add, sub, as_i64,
  less_signature,
}

-- What Rust says of every slice of bytes: it holds `isize::MAX` of them at most, on a target of 64
-- bits at most.
pub record IsSlice (m : Machine) (bytes : List ℕ) : Type 0 where
  pub width : m.usize_max < 2 ^ 64
  pub held : length bytes ≤ m.usize_max / 2

module _ {E : Type 0} where
  -- A step that returns what the model's step does, and goes on to what the model goes on to.
  pub bind_lem {ℓ κ} :
      {A : Type ℓ} {B : Type κ} (r : Result A E) (walk : A → Checked B E) (read : A → Result B E)
      → ((a : A) → r ≡ ok a → walk a ≡ returns (read a))
      → bind (returns r) walk ≡ returns (r >>= read)
  bind_lem (ok a) walk read h = h a refl
  bind_lem (err e) walk read h = refl

  pub assert_lem : (a b : ℕ) → a ≡ b → assert {E = E} (a == b) ≡ value tt
  assert_lem a b h = ground arith

  pub add_lem : (m : Machine) (a b : ℕ) → a + b ≤ m.usize_max → add {E = E} m a b ≡ value (a + b)
  add_lem m a b h = ground arith

  pub sub_lem : (a b : ℕ) → b ≤ a → sub {E = E} a b ≡ value (a - b)
  sub_lem a b h = ground arith

  pub less_signature_lem :
      (n : ℕ) → n < 2 ^ 63 → less_signature {E = E} (as_i64 n) ≡ value (sub_ℕ n signature_length)
  less_signature_lem n h = ground arith

module _ {A : Type 0} {E : Type 0} where
  pub index_lem :
      (xs : List A) (at : ℕ) (d : A) → at < length xs → index {E = E} xs at ≡ value (get_or xs at d)
  index_lem [] at d h = absurd (omega arith)
  index_lem (x ∷ xs) zero d h = refl
  index_lem (x ∷ xs) (suc at) d h = index_lem xs at d (omega arith)

  pub slice_from_lem :
      (xs : List A) (at : ℕ) → at ≤ length xs → slice_from {E = E} xs at ≡ value (drop at xs)
  slice_from_lem xs at h = ground arith

  pub slice_to_lem :
      (xs : List A) (end : ℕ) → end ≤ length xs → slice_to {E = E} xs end ≡ value (take end xs)
  slice_to_lem xs end h = ground arith

  pub slice_lem :
      (xs : List A) (at size : ℕ)
      → at + size ≤ length xs
      → slice {E = E} xs at (at + size) ≡ value (take size (drop at xs))
  slice_lem xs at size h = let e : at + size - at ≡ size = omega arith in ground arith
