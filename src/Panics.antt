-- ===== src/Panics.antt =====
-- What Rust's slices and integers do out of range: a panic. A build with its checks on panics on an
-- overflow too, which is how the sums and differences are taken here.
pub mod InRange
use owid_rust.Prelude.{
  ℕ, List, ◌+◌, ◌-◌, ◌^◌, Bool, true, false, Option, none, some, Result, ok, err, length, get_elem?,
  take, drop, leb, ltb, ◌&&◌, if◌then◌else◌,
}
use owid_rust.Prelude.Int.{ℤ, pos, negsuc, sub_ℕ}
use owid_rust.Platform.{Machine}
use owid_rust.Io.{signature_length}

pub data Checked {ℓ} (A : Type ℓ) (E : Type 0) : Type ℓ where
  panics : Checked A E
  returns : Result A E → Checked A E

module _ {ℓ κ} {A : Type ℓ} {B : Type κ} {E : Type 0} where
  abbrev pub bind : Checked A E → (A → Checked B E) → Checked B E
  bind panics next = panics
  bind (returns (ok value)) next = next value
  bind (returns (err error)) next = returns (err error)

  infixl 5 ◌>>=◌
  abbrev pub ◌>>=◌ : Checked A E → (A → Checked B E) → Checked B E
  first >>= next = bind first next

  infixl 5 ◌>>◌
  abbrev pub ◌>>◌ : Checked A E → Checked B E → Checked B E
  first >> next = bind first λ _. next

abbrev pub value {ℓ} : {A : Type ℓ} {E : Type 0} → A → Checked A E
value a = returns (ok a)

module _ {E : Type 0} where
  -- `assert!`
  abbrev pub assert : Bool → Checked (Unit {0}) E
  assert true = value tt
  assert false = panics

  -- `a + b` and `a - b` of two usize
  abbrev pub add : Machine → ℕ → ℕ → Checked ℕ E
  add m a b = if leb (a + b) m.usize_max then value (a + b) else panics

  abbrev pub sub : ℕ → ℕ → Checked ℕ E
  sub a b = if ltb a b then panics else value (a - b)

  -- `n - SIGNATURE_LENGTH as i64`
  abbrev pub less_signature : ℤ → Checked ℤ E
  less_signature (pos n) = value (sub_ℕ n signature_length)
  less_signature (negsuc n) =
      if ltb (n + signature_length) (2 ^ 63) then value (negsuc (n + signature_length)) else panics

-- `n as i64`, which wraps
abbrev pub as_i64 : ℕ → ℤ
as_i64 n = if ltb n (2 ^ 63) then pos n else sub_ℕ n (2 ^ 64)

-- `xs[at]`, `&xs[at..]`, `&xs[..end]` and `&xs[at..end]`
module _ {A : Type 0} {E : Type 0} where
  abbrev at_index : Option A → Checked A E
  at_index none = panics
  at_index (some x) = value x

  abbrev pub index : List A → ℕ → Checked A E
  index xs at = at_index (get_elem? xs at)

  abbrev pub slice_from : List A → ℕ → Checked (List A) E
  slice_from xs at = if leb at (length xs) then value (drop at xs) else panics

  abbrev pub slice_to : List A → ℕ → Checked (List A) E
  slice_to xs end = if leb end (length xs) then value (take end xs) else panics

  abbrev pub slice : List A → ℕ → ℕ → Checked (List A) E
  slice xs at end =
      if leb at end && leb end (length xs) then value (take (end - at) (drop at xs)) else panics
