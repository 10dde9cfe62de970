-- ===== src/Parse/Errors.antt =====
-- What the reads refuse: bytes after the envelope, the statuses that cannot arise, and the memory
-- that a sender can make a read reserve.
use owid_rust.Prelude.{
  ℕ, suc, ◌+◌, ◌-◌, ◌≤◌, ◌≡◌, ◌≢◌, refl, ◌∙◌, [], ◌∷◌, ◌++◌, Bool, true, false, not, Option, none,
  some, Result, ok, err, ◌>>=◌, length, drop, arith, ltb, leb, Result-cases, inl, inr,
}
use owid_rust.Prelude.Int.{ℤ, pos, sub_ℕ}
use owid_rust.Text.{Str, text}
use owid_rust.Platform.{Machine, Chrono}
use owid_rust.Error.{Error, ParseError, ParseStatus, ParseDetail, fail_with}
use owid_rust.Version.{Version, try_from, empty, version1, version2, version3}
use owid_rust.Io.{Bytes, signature_length}
use owid_rust.Envelope.{layout, IsWellFormed}
use owid_rust.Parse.{
  Extent, whole_buffer, prefix, version_of, count_check, end_check, guard, terminator, domain_of,
  domain_upto, read_domain, date_length, read_date, read_rest, parse_one,
}
use owid_rust.Parse.Steps.{count_check-ok, end_check-Fits, parse_one-Header}
use owid_rust.Parse.RoundTrip.{laid, at_payload, length-laid, declared-laid, header}
use owid_rust.Parse.Converse.{Fits-le}

-- No error has the status.
abbrev pub Avoids {ℓ} : {A : Type ℓ} → ParseStatus → Result A ParseError → Type 0
Avoids s (ok a) = Unit
Avoids s (err e) = e.status ≢ s

Avoids-bind {ℓ κ} :
    {A : Type ℓ} {B : Type κ} (s : ParseStatus) (r : Result A ParseError)
    (f : A → Result B ParseError)
    → Avoids s r
    → ((a : A) → r ≡ ok a → Avoids s (f a))
    → Avoids s (r >>= f)
Avoids-bind s (ok a) f h k = k a refl
Avoids-bind s (err e) f h k = h

Avoids-ok {ℓ} :
    {A : Type ℓ} (s : ParseStatus) (r : Result A ParseError) {a : A} → r ≡ ok a → Avoids s r
Avoids-ok s (ok a) e = tt
Avoids-ok s (err x) e = cc

abbrev malformed : ParseStatus
malformed = ParseStatus.malformed_envelope

version_of-Avoids : (byte : ℕ) (r : Result Version Error) → Avoids malformed (version_of byte r)
version_of-Avoids byte (ok empty) = ground arith
version_of-Avoids byte (ok version1) = tt
version_of-Avoids byte (ok version2) = tt
version_of-Avoids byte (ok version3) = tt
version_of-Avoids byte (err e) = ground arith

guard-Avoids :
    (b : Bool) (status : ParseStatus) (detail : ParseDetail)
    → status ≢ malformed
    → Avoids malformed (guard b status detail)
guard-Avoids true status detail h = tt
guard-Avoids false status detail h = h

domain_of-Avoids : (o : Option Str) (end : ℕ) → Avoids malformed (domain_of o end)
domain_of-Avoids none end = ground arith
domain_of-Avoids (some s) end = tt

domain_upto-Avoids : (bytes : Bytes) (o : Option ℕ) → Avoids malformed (domain_upto bytes o)
domain_upto-Avoids bytes none = ground arith
domain_upto-Avoids bytes (some end) = domain_of-Avoids _ end

read_domain-Avoids : (bytes : Bytes) → Avoids malformed (read_domain bytes)
unfolding read_domain
read_domain-Avoids bytes = domain_upto-Avoids bytes (terminator bytes)

count_check-Avoids :
    (extent : Extent) (declared : ℕ) (present : ℤ)
    → Avoids malformed (count_check extent declared present)
count_check-Avoids whole_buffer declared present = ground arith
count_check-Avoids prefix declared present = ground arith

mismatch :
    (declared more : ℕ)
    → count_check whole_buffer declared (sub_ℕ (declared + (64 + suc more)) signature_length)
      ≡ fail_with ParseStatus.byte_count_mismatch
          (ParseDetail.byte_counts declared (pos (declared + suc more)))
mismatch declared more = ground arith

module _ (m : Machine) (c : Chrono) where
  read_date-Avoids :
      (bytes : Bytes) (version : Version) → Avoids malformed (read_date c bytes version)
  unfolding read_date
  read_date-Avoids bytes version = ground arith

  read_rest-Avoids :
      (buffer : Bytes) (extent : Extent) (at declared : ℕ) (version : Version) (domain : Str)
      (date : c.DateTime)
      → at ≤ length buffer
      → Avoids malformed (read_rest m c buffer extent at declared version domain date)
  unfolding read_rest
  read_rest-Avoids buffer extent at declared version domain date le =
      Avoids-bind malformed (count_check extent declared _) _ (count_check-Avoids extent declared _)
        λ u count.
          Avoids-bind malformed (guard (leb declared m.usize_max) _ _) _
            (guard-Avoids (leb declared m.usize_max) _ _ (ground arith))
            λ u1 e1.
              Avoids-bind malformed (guard (m.can_reserve declared) _ _) _
                (guard-Avoids (m.can_reserve declared) _ _ (ground arith))
                λ u2 e2.
                  Avoids-bind malformed (end_check extent (at + declared + 64) (length buffer)) _
                    (Avoids-ok malformed _ (
                      end_check-Fits m c extent (length buffer) at declared le
                        (count_check-ok extent (length buffer - at) declared count)))
                    λ u3 e3. tt

  -- `MalformedEnvelope` is the answer to no buffer: the check that would raise it is never reached
  -- with an index short of the end.
  pub parse_one-ne-malformed :
      (buffer : Bytes) (extent : Extent) → Avoids malformed (parse_one m c buffer extent)
  unfolding parse_one
  parse_one-ne-malformed [] extent = ground arith
  parse_one-ne-malformed (first ∷ rest) extent =
      Avoids-bind malformed (version_of first (try_from first)) _
        (version_of-Avoids first (try_from first))
        λ version e.
          Avoids-bind malformed (read_domain rest) _ (read_domain-Avoids rest) λ field e1.
            Avoids-bind malformed (read_date c (drop (1 + field.1) (first ∷ rest)) version) _
              (read_date-Avoids _ version)
              λ date e2.
                Avoids-bind malformed
                  (guard (not (ltb (suc (length rest) - (1 + field.1 + date_length version)) 4))
                    ParseStatus.unexpected_end (ParseDetail.field (text "the payload length")))
                  _ (guard-Avoids _ _ _ (ground arith))
                  λ u e3.
                    read_rest-Avoids (first ∷ rest) extent _ _ version field.0 date (ground arith)

  -- In a buffer that holds one OWID and at least one byte more, the whole buffer read answers
  -- `ByteCountMismatch`, with the count declared and the count present.
  pub parse_one-trailing :
      (version : Version) (domain : Str) (n : ℕ) (payload signature : Bytes) (extra : ℕ)
      (rest : Bytes)
      → IsWellFormed version domain n payload signature
      → parse_one m c (layout version domain n payload (signature ++ extra ∷ rest)) whole_buffer
        ≡ fail_with ParseStatus.byte_count_mismatch (
            ParseDetail.byte_counts (length payload) (pos (length payload + length (extra ∷ rest))))
  unfolding layout read_rest
  parse_one-trailing version domain n payload signature extra rest w =
      let size = length-laid m c version domain n payload signature w (extra ∷ rest) in
      let left : suc (length (laid m c version domain n payload signature w (extra ∷ rest)))
            - at_payload m c version domain n payload signature w
          ≡ length payload + (64 + suc (length rest)) =
        omega (arith, size) in
      parse_one-Header m c _ _ whole_buffer _ _ _ _
        (header m c version domain n payload signature w (extra ∷ rest))
      ∙ rw (declared-laid m c version domain n payload signature w (extra ∷ rest))
          (rw left (rw (mismatch (length payload) (length rest))))

-- Two machines that agree on every payload a buffer could hold.
abbrev pub SameUpto : ℕ → Machine → Machine → Type 0
SameUpto size m k =
    (n : ℕ)
    → n ≤ size
    → (leb n m.usize_max ≡ leb n k.usize_max) × (m.can_reserve n ≡ k.can_reserve n)

module _ (m k : Machine) (c : Chrono) where
  read_rest-SameUpto :
      (buffer : Bytes) (extent : Extent) (at declared : ℕ) (version : Version) (domain : Str)
      (date : c.DateTime)
      → SameUpto (length buffer) m k
      → read_rest m c buffer extent at declared version domain date
        ≡ read_rest k c buffer extent at declared version domain date
  unfolding read_rest
  read_rest-SameUpto buffer extent at declared version domain date same =
      elim (Result-cases (count_check extent declared (sub_ℕ (length buffer - at) 64))) [
        | inr (e, bad) ↦ rw bad
        | inl (u, good) ↦
            let fits =
              Fits-le extent _ declared
                (count_check-ok extent (length buffer - at) declared good) in
            let (wide, room) = same declared (omega (arith, fits)) in rw (good, wide, room)
      ]

  -- What is reserved is never more than the buffer holds: whatever a sender declares, the answer
  -- depends on the width of `usize` and on the allocator only at sizes up to that of the buffer.
  pub parse_one-SameUpto :
      (buffer : Bytes) (extent : Extent)
      → SameUpto (length buffer) m k
      → parse_one m c buffer extent ≡ parse_one k c buffer extent
  unfolding parse_one
  parse_one-SameUpto [] extent same = refl
  parse_one-SameUpto (first ∷ rest) extent same =
      elim (Result-cases (version_of first (try_from first))) [
        | inr (e, bad) ↦ rw bad
        | inl (version, good) ↦ elim (Result-cases (read_domain rest)) [
          | inr (e, bad) ↦ rw (good, bad)
          | inl ((domain, used), good1) ↦
              elim (Result-cases (read_date c (drop (1 + used) (first ∷ rest)) version)) [
                | inr (e, bad) ↦ rw (good, good1, bad)
                | inl (date, good2) ↦
                    rw (good, good1, good2)
                      (rw (read_rest-SameUpto (first ∷ rest) extent _ _ version domain date same))
              ]
        ]
      ]
