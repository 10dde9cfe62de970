-- ===== src/Parse/Fields.antt =====
-- Each field as it is read: `read_domain`, `read_date` and the payload length, from the bytes that
-- the writes produce, and back.
use owid_rust.Prelude.{
  ℕ, zero, suc, ◌+◌, ◌*◌, ◌/◌, ◌%◌, ◌^◌, ◌≤◌, ◌<◌, min, ◌≡◌, ◌≢◌, refl, sym, ap, ◌∙◌, List, [], ◌∷◌,
  ◌++◌, Bool, true, false, some, ok, length, length-append, length-take, take, drop, take-length,
  any, position, map-suc-ne-zero, map-suc-eq-some, Bool-cases, get_or-drop, All, ◌==◌, arith,
  Option-cases, inl, inr, ltb, ==_iff, subst,
}
use owid_rust.Text.{Str}
use owid_rust.Text.Utf8.{as_bytes, from_utf8}
use owid_rust.Text.Utf8.RoundTrip.{IsChar, IsByte, from_utf8-as_bytes, as_bytes-from_utf8}
use owid_rust.Platform.{Chrono}
use owid_rust.Version.{Version, empty, version1, version2, version3}
use owid_rust.Io.{Bytes, maximum_domain_length, to_le_bytes}
use owid_rust.Envelope.{date_at, date_bytes, IsCount}
use owid_rust.Parse.{window, terminator, read_domain, date_length, from_le_bytes, read_date}

module _ {ℓ} {A : Type ℓ} (p : A → Bool) where
  position-take :
      (k : ℕ) (xs : List A) (z : A) (rest : List A)
      → any p xs ≡ false
      → p z ≡ true
      → length xs < k
      → position p (take k (xs ++ z ∷ rest)) ≡ some (length xs)
  position-take zero xs z rest none_before found h = absurd (omega arith)
  position-take (suc k) [] z rest none_before found h = rw found
  position-take (suc k) (x ∷ xs) z rest none_before found h =
      ground (arith, position-take k xs z rest)

  pub position-take-some :
      (k : ℕ) (xs : List A) (i : ℕ)
      → position p (take k xs) ≡ some i
      → (i < k)
        × (any p (take i xs) ≡ false)
        × ((z : A) × (p z ≡ true) × (xs ≡ take i xs ++ z ∷ drop (suc i) xs))
  position-take-some zero xs i h = cc
  position-take-some (suc k) [] i h = cc
  position-take-some (suc k) (x ∷ xs) zero h = elim (Bool-cases (p x)) [
    | inl e ↦ (omega arith, refl, (x, e, refl))
    | inr e ↦ absurd (map-suc-ne-zero _ (rw e at h))
  ]
  position-take-some (suc k) (x ∷ xs) (suc i) h = elim (Bool-cases (p x)) [
    | inl e ↦ cc (rw e at h)
    | inr e ↦
        let (lt, before, tail) = position-take-some k xs i (map-suc-eq-some _ i (rw e at h)) in
        (omega arith, rw (e, before), (tail.0, tail.1, ap (λ t. x ∷ t) tail.2))
  ]

-- The terminator is found behind the domain, and the bytes before it are read back.
pub read_domain_lem :
    (domain : Str) (rest : Bytes)
    → All IsChar domain
    → any (λ b. b == 0) (as_bytes domain) ≡ false
    → length (as_bytes domain) ≤ maximum_domain_length
    → read_domain (as_bytes domain ++ 0 ∷ rest) ≡ ok (domain, length (as_bytes domain) + 1)
unfolding read_domain
read_domain_lem domain rest chars no_nul short =
    rw
      (position-take (λ b. b == 0) (min (length (as_bytes domain ++ 0 ∷ rest)) 254)
        (as_bytes domain) 0 rest no_nul refl
        (omega (arith, length-append (as_bytes domain) (0 ∷ rest))))
      (rw (take-length (as_bytes domain) (0 ∷ rest) _ refl) (rw (from_utf8-as_bytes domain chars)))

-- What was read as a domain is a text within the bound, ended by the terminator that is consumed.
pub read_domain-ok :
    (bytes : Bytes) (domain : Str) (used : ℕ)
    → read_domain bytes ≡ ok (domain, used)
    → All IsChar domain
      × (any (λ b. b == 0) (as_bytes domain) ≡ false)
      × (length (as_bytes domain) ≤ maximum_domain_length)
      × (used ≡ length (as_bytes domain) + 1)
      × (bytes ≡ as_bytes domain ++ 0 ∷ drop used bytes)
unfolding read_domain
read_domain-ok bytes domain used h = elim (Option-cases (terminator bytes)) [
  | inl e ↦ ground (arith, e)
  | inr (end, e) ↦ elim (Option-cases (from_utf8 (take end bytes))) [
    | inl e' ↦ ground (arith, e, e')
    | inr (s, e') ↦
        let found = position-take-some (λ b. b == 0) (window bytes) bytes end e in
        let (chars, same) = as_bytes-from_utf8 (take end bytes) s e' in
        let read : (s ≡ domain) × (used ≡ end + 1) = ground (arith, e, e') in
        let d : as_bytes domain ≡ take end bytes = ap as_bytes (sym read.0) ∙ same in
        let size : length (take end bytes) ≡ end = omega (arith, length-take end bytes, found.0) in
        let tail = found.2 in
        let next : used ≡ suc end = omega (arith, read.1) in
        (
          subst (λ t. All IsChar t) read.0 chars,
          rw d found.1,
          rw d (omega (arith, found.0)),
          rw d (omega (arith, read.1)),
          rw (d, next)
              (tail.2
                ∙ ap (λ t. take end bytes ++ t ∷ drop (suc end) bytes)
                    ((==_iff tail.0 0).0 tail.1)),
        )
  ]
]

pub from_le_bytes_at :
    (bytes : Bytes) (at : ℕ) → from_le_bytes bytes at ≡ from_le_bytes (drop at bytes) 0
unfolding from_le_bytes
from_le_bytes_at bytes at = let e : at + 0 ≡ at = omega arith in simp get_or-drop (rw e)

pub from_le_bytes-to_le_bytes :
    (n : ℕ) (rest : Bytes) → n < 2 ^ 32 → from_le_bytes (to_le_bytes n ++ rest) 0 ≡ n
unfolding from_le_bytes
from_le_bytes-to_le_bytes n rest h = omega arith

pub to_le_bytes-from_le_bytes :
    (bytes : Bytes)
    → All IsByte bytes
    → 4 ≤ length bytes
    → (from_le_bytes bytes 0 < 2 ^ 32)
      × (bytes ≡ to_le_bytes (from_le_bytes bytes 0) ++ drop 4 bytes)
unfolding from_le_bytes
to_le_bytes-from_le_bytes [] h k = absurd (omega arith)
to_le_bytes-from_le_bytes (a ∷ []) h k = absurd (omega arith)
to_le_bytes-from_le_bytes (a ∷ b ∷ []) h k = absurd (omega arith)
to_le_bytes-from_le_bytes (a ∷ b ∷ d ∷ []) h k = absurd (omega arith)
to_le_bytes-from_le_bytes (a ∷ b ∷ d ∷ e ∷ r) h k = ground arith

module _ (c : Chrono) where
  pub read_date_lem :
      (version : Version) (n : ℕ) (rest : Bytes)
      → version ≢ empty
      → IsCount version n
      → read_date c (date_bytes version n ++ rest) version ≡ ok (date_at c version n)
  unfolding read_date date_length
  read_date_lem version1 n rest known h =
      let e : n / 256 % 256 * 256 + n % 256 ≡ n = omega arith in ground (arith, e)
  read_date_lem version2 n rest known h = ground (arith, from_le_bytes-to_le_bytes n rest h)
  read_date_lem version3 n rest known h = ground (arith, from_le_bytes-to_le_bytes n rest h)
  read_date_lem empty n rest known h = absurd (known refl)

  minutes_read :
      (bytes : Bytes) (date : c.DateTime)
      → All IsByte bytes
      → read_date c bytes version2 ≡ ok date
      → (4 ≤ length bytes)
        × ((n : ℕ) × (n < 2 ^ 32)
            × (date ≡ date_at c version2 n)
            × (bytes ≡ to_le_bytes n ++ drop 4 bytes))
  unfolding read_date date_length
  minutes_read bytes date h e = elim (Bool-cases (ltb (length bytes) 4)) [
    | inl short ↦ cc (rw short at e)
    | inr long ↦
        let room : 4 ≤ length bytes = ground arith in
        let (range, same) = to_le_bytes-from_le_bytes bytes h room in
        (room, (from_le_bytes bytes 0, range, ground arith, same))
  ]

  pub read_date-ok :
      (bytes : Bytes) (version : Version) (date : c.DateTime)
      → All IsByte bytes
      → version ≢ empty
      → read_date c bytes version ≡ ok date
      → (date_length version ≤ length bytes)
        × ((n : ℕ) × IsCount version n
            × (date ≡ date_at c version n)
            × (bytes ≡ date_bytes version n ++ drop (date_length version) bytes))
  unfolding read_date date_length
  read_date-ok bytes empty date h known e = absurd (known refl)
  read_date-ok [] version1 date h known e = cc
  read_date-ok (a ∷ []) version1 date h known e = cc
  read_date-ok (a ∷ b ∷ r) version1 date h known e =
      (omega arith, (a * 256 + b, ground arith, ground arith, ground arith))
  read_date-ok bytes version2 date h known e = minutes_read bytes date h e
  read_date-ok bytes version3 date h known e = minutes_read bytes date h e
