-- ===== src/Platform.antt =====
-- What the crate runs on and does not implement: the width of `usize`, the allocator, and
-- the crates chrono and p256. Each is an interface that the definitions take.
use owid_rust.Prelude.{
  ℕ, ◌^◌, ◌≤◌, ◌<◌, ◌≡◌, ◌⊎◌, ◌↔◌, Bool, true, false, List, Option, some, Result, ok, length, all,
}
use owid_rust.Prelude.Int.{ℤ, pos}
use owid_rust.Text.{is_whitespace}

-- `usize::MAX`, and whether `try_reserve_exact` of so many bytes on an empty vector succeeds.
pub record Machine : Type 0 where
  pub usize_max : ℕ
  pub can_reserve : ℕ → Bool

-- The calls of chrono: `DateTime<Utc>` with its order, `base_date()` is
-- `DateTime::from_timestamp(1_577_836_800, 0)`, the difference of two moments and its whole
-- minutes and hours, and a moment moved by minutes or hours.
pub record Chrono : Type 1 where
  pub DateTime : Type 0
  pub TimeDelta : Type 0
  pub from_timestamp : ℕ → DateTime
  pub difference : DateTime → DateTime → TimeDelta
  pub num_minutes : TimeDelta → ℤ
  pub num_hours : TimeDelta → ℤ
  pub add : DateTime → TimeDelta → DateTime
  pub minutes : ℕ → TimeDelta
  pub hours : ℕ → TimeDelta
  -- `a <= b` and `a == b`
  pub before : DateTime → DateTime → Bool
  pub same : DateTime → DateTime → Bool

-- What the crate relies on: a moment moved by whole minutes or hours, inside the range that an
-- OWID can carry, lies so many of them later, and moments are in a total order.
pub record IsChrono (c : Chrono) : Type 0 where
  pub minutes_later :
      (s n : ℕ)
      → n < 2 ^ 32
      → s ≤ 1577836800
      → c.num_minutes (c.difference (c.add (c.from_timestamp s) (c.minutes n)) (c.from_timestamp s))
        ≡ pos n
  pub hours_later :
      (s n : ℕ)
      → n < 2 ^ 16
      → s ≤ 1577836800
      → c.num_hours (c.difference (c.add (c.from_timestamp s) (c.hours n)) (c.from_timestamp s))
        ≡ pos n
  pub before_trans :
      (a b d : c.DateTime) → c.before a b ≡ true → c.before b d ≡ true → c.before a d ≡ true
  pub before_total : (a b : c.DateTime) → (c.before a b ≡ true) ⊎ (c.before b a ≡ true)
  pub before_antisym : (a b : c.DateTime) → c.before a b ≡ true → c.before b a ≡ true → a ≡ b
  pub same_iff : (a b : c.DateTime) → (c.same a b ≡ true) ↔ (a ≡ b)

-- The calls of the crate p256. The texts are what `to_string` makes of its errors, and `random`
-- takes what the operating system draws.
pub record P256 : Type 1 where
  pub SigningKey : Type 0
  pub VerifyingKey : Type 0
  pub Signature : Type 0
  pub random : ℕ → SigningKey
  pub verifying_key : SigningKey → VerifyingKey
  pub from_pkcs8_pem : List ℕ → Result SigningKey (List ℕ)
  pub from_sec1_pem : List ℕ → Result SigningKey (List ℕ)
  pub to_pkcs8_pem : SigningKey → Result (List ℕ) (List ℕ)
  pub from_public_key_pem : List ℕ → Result VerifyingKey (List ℕ)
  pub to_public_key_pem : VerifyingKey → Result (List ℕ) (List ℕ)
  pub sign : SigningKey → List ℕ → Signature
  pub to_bytes : Signature → List ℕ
  pub from_slice : List ℕ → Option Signature
  pub verify : VerifyingKey → List ℕ → Signature → Bool

-- What the crate relies on: a signature has 64 bytes and is read back from them, what a key signed
-- verifies under its public key, and a PEM that was written is read back and is not blank.
pub record IsP256 (p : P256) : Type 0 where
  pub length-to_bytes : (s : p.Signature) → length (p.to_bytes s) ≡ 64
  pub from_slice-to_bytes : (s : p.Signature) → p.from_slice (p.to_bytes s) ≡ some s
  pub verify-sign :
      (k : p.SigningKey) (message : List ℕ)
      → p.verify (p.verifying_key k) message (p.sign k message) ≡ true
  pub public_pem :
      (k : p.VerifyingKey) (pem : List ℕ)
      → p.to_public_key_pem k ≡ ok pem
      → p.from_public_key_pem pem ≡ ok k
  pub public_pem_dense :
      (k : p.VerifyingKey) (pem : List ℕ)
      → p.to_public_key_pem k ≡ ok pem
      → all is_whitespace pem ≡ false

-- The texts of moments that chrono writes and reads: `to_rfc3339_opts` with whole seconds and `Z`,
-- and `parse_from_rfc3339` with the zone set to UTC.
pub record Rfc3339 (c : Chrono) : Type 0 where
  pub to_rfc3339 : c.DateTime → List ℕ
  pub parse_from_rfc3339 : List ℕ → Option c.DateTime
