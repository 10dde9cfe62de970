-- ===== src/Parse/Stable.antt =====
-- More bytes behind a frame change no answer but `UnexpectedEnd`: each field in turn.
use owid_rust.Prelude.{
  ℕ, ◌+◌, ◌-◌, ◌≤◌, min, ◌≡◌, refl, ap, ◌∷◌, ◌++◌, false, none, Result, ok, err, ◌>>=◌, not, length,
  length-append, take, drop, take-append_le, drop-append_le, get_or-append_lt, position-append,
  length-drop, arith, ltb, ◌==◌, Option-cases, Result-cases, Bool-cases, inl, inr,
}
use owid_rust.Prelude.Int
use owid_rust.Prelude.Int.{ℤ, pos, sub_ℕ}
use owid_rust.Text.{Str, text}
use owid_rust.Text.Utf8.{as_bytes}
use owid_rust.Platform.{Machine, Chrono}
use owid_rust.Error.{ParseError, ParseStatus, ParseDetail}
use owid_rust.Parse.Fields.{read_domain-ok}
use owid_rust.Parse.Steps.{count_check_lem, count_check-ok}
use owid_rust.Version.{Version, try_from, empty, version1, version2, version3}
use owid_rust.Io.{Bytes}
use owid_rust.Owid.{Owid}
use owid_rust.Parse.{
  ◌>>◌, date_of, version_of, guard, window, terminator, read_domain, date_length, from_le_bytes,
  read_date, prefix, read_rest, parse_one,
}

-- An answer that waits for more bytes.
abbrev pub IsEarly {ℓ} : {A : Type ℓ} → Result A ParseError → Type 0
IsEarly (ok a) = ⊥
IsEarly (err e) = e.status ≡ ParseStatus.unexpected_end

read_domain-append :
    (bytes more : Bytes)
    → ¬ (IsEarly (read_domain bytes))
    → read_domain (bytes ++ more) ≡ read_domain bytes
unfolding read_domain
read_domain-append bytes more h = elim (Option-cases (terminator bytes)) [
  | inl e ↦ elim (Bool-cases (ltb 253 (window bytes))) [
    | inl long ↦
        let w0 : min (length bytes) 254 ≡ 254 = ground arith in
        let w1 : min (length (bytes ++ more)) 254 ≡ 254 =
          ground (arith, length-append bytes more) in
        let same : terminator (bytes ++ more) ≡ none =
          rw (w1, take-append_le 254 bytes more (ground arith)) (rw w0 at e) in
        rw (same, e) (rw (w1, w0))
    | inr short ↦ absurd (h (rw (e, short) refl))
  ]
  | inr (end, e) ↦
      let (found, lt) =
        position-append (λ b. b == 0) (window bytes) (window (bytes ++ more)) bytes more end e
          (omega (arith, length-append bytes more)) in
      rw (e, found) (rw (take-append_le end bytes more (omega arith)))
]

pub read_domain_used :
    (bytes : Bytes) (domain : Str) (used : ℕ)
    → read_domain bytes ≡ ok (domain, used)
    → used ≤ length bytes
read_domain_used bytes domain used h =
    let (chars, no_nul, short, count, split) = read_domain-ok bytes domain used h in
    omega (
      arith,
      ap length split,
      length-append (as_bytes domain) (0 ∷ drop used bytes),
      length-drop used bytes,
    )

from_le_bytes-append :
    (bytes more : Bytes) (at : ℕ)
    → at + 4 ≤ length bytes
    → from_le_bytes (bytes ++ more) at ≡ from_le_bytes bytes at
unfolding from_le_bytes
from_le_bytes-append bytes more at h = rw (
  get_or-append_lt bytes more at 0 (omega arith),
  get_or-append_lt bytes more (at + 1) 0 (omega arith),
  get_or-append_lt bytes more (at + 2) 0 (omega arith),
  get_or-append_lt bytes more (at + 3) 0 (omega arith),
)

module _ (m : Machine) (c : Chrono) where
  date_of-append :
      (bytes more : Bytes) (version : Version)
      → date_length version ≤ length bytes
      → date_of c (bytes ++ more) version ≡ date_of c bytes version
  unfolding date_length
  date_of-append bytes more empty h = rw (from_le_bytes-append bytes more 0 (omega arith), date_of)
  date_of-append bytes more version1 h = rw (
    get_or-append_lt bytes more 0 0 (omega arith),
    get_or-append_lt bytes more 1 0 (omega arith),
    date_of,
  )
  date_of-append bytes more version2 h =
      rw (from_le_bytes-append bytes more 0 (omega arith), date_of)
  date_of-append bytes more version3 h =
      rw (from_le_bytes-append bytes more 0 (omega arith), date_of)

  read_date-append :
      (bytes more : Bytes) (version : Version)
      → ¬ (IsEarly (read_date c bytes version))
      → read_date c (bytes ++ more) version ≡ read_date c bytes version
  unfolding read_date
  read_date-append bytes more version h =
      elim (Bool-cases (ltb (length bytes) (date_length version))) [
        | inl short ↦ absurd (h (rw short refl))
        | inr long ↦
            let grown : ltb (length (bytes ++ more)) (date_length version) ≡ false =
              ground (arith, length-append bytes more) in
            rw (long, grown) (rw (date_of-append bytes more version (ground arith)))
      ]

  read_rest-append :
      (buffer more : Bytes) (at declared : ℕ) (version : Version) (domain : Str) (date : c.DateTime)
      → at ≤ length buffer
      → ¬ (IsEarly (read_rest m c buffer prefix at declared version domain date))
      → read_rest m c (buffer ++ more) prefix at declared version domain date
        ≡ read_rest m c buffer prefix at declared version domain date
  unfolding read_rest
  read_rest-append buffer more at declared version domain date le h =
      elim (Bool-cases (Int.ltb (sub_ℕ (length buffer - at) 64) (pos declared))) [
        | inl short ↦ absurd (h (rw short refl))
        | inr long ↦
            let fits = count_check-ok prefix (length buffer - at) declared (rw long) in
            let size = length-append buffer more in
            let payload : take declared (drop at (buffer ++ more))
                ≡ take declared (drop at buffer) =
              rw (drop-append_le at buffer more le) (
                take-append_le declared (drop at buffer) more
                  (omega (arith, length-drop at buffer))) in
            let signature : take 64 (drop (at + declared) (buffer ++ more))
                ≡ take 64 (drop (at + declared) buffer) =
              rw (drop-append_le (at + declared) buffer more (omega arith)) (
                take-append_le 64 (drop (at + declared) buffer) more
                  (omega (arith, length-drop (at + declared) buffer))) in
            rw (count_check_lem prefix (length buffer - at) declared fits) (
              rw (count_check_lem prefix (length (buffer ++ more) - at) declared (omega arith))
                (rw (payload, signature)))
      ]

  -- `parse_one` from the date on.
  abbrev after_domain : Bytes → Version → Str → ℕ → Result (Owid c × ℕ) ParseError
  after_domain buffer version domain used = do
    date ← read_date c (drop (1 + used) buffer) version
    let at = 1 + used + date_length version
    guard (not (ltb (length buffer - at) 4)) ParseStatus.unexpected_end
          (ParseDetail.field (text "the payload length"))
        >> read_rest m c buffer prefix (at + 4) (from_le_bytes buffer at) version domain date

  after_domain-append :
      (buffer more : Bytes) (version : Version) (domain : Str) (used : ℕ)
      → 1 + used ≤ length buffer
      → ¬ (IsEarly (after_domain buffer version domain used))
      → after_domain (buffer ++ more) version domain used ≡ after_domain buffer version domain used
  after_domain-append buffer more version domain used le h =
      elim (Result-cases (read_date c (drop (1 + used) buffer) version)) [
        | inr (e, bad) ↦
            let final =
              read_date-append (drop (1 + used) buffer) more version
                (λ early. h (rw bad (rw bad at early))) in
            rw (drop-append_le (1 + used) buffer more le) (rw (final, bad))
        | inl (date, good) ↦
            let final =
              read_date-append (drop (1 + used) buffer) more version (λ early. rw good at early) in
            let at = 1 + used + date_length version in
            elim (Bool-cases (ltb (length buffer - at) 4)) [
              | inl short ↦ absurd (h (rw (good, short) refl))
              | inr long ↦
                  let grown : ltb (length (buffer ++ more) - at) 4 ≡ false =
                    ground (arith, length-append buffer more) in
                  let room : at + 4 ≤ length buffer = ground arith in
                  rw (drop-append_le (1 + used) buffer more le) (
                    rw (final, good)
                      (rw (grown, long)
                        (rw (from_le_bytes-append buffer more at room) (
                          read_rest-append buffer more (at + 4) _ version domain date room
                            (λ early. h (rw (good, long) early))))))
            ]
      ]

  -- The result of `parse_one` on a frame is final unless it is `UnexpectedEnd`.
  pub parse_one-append :
      (first : ℕ) (rest more : Bytes)
      → ¬ (IsEarly (parse_one m c (first ∷ rest) prefix))
      → parse_one m c (first ∷ (rest ++ more)) prefix ≡ parse_one m c (first ∷ rest) prefix
  unfolding parse_one
  parse_one-append first rest more h = elim (Result-cases (version_of first (try_from first))) [
    | inr (e, bad) ↦ rw bad
    | inl (version, good) ↦ elim (Result-cases (read_domain rest)) [
      | inr (e, bad) ↦
          let final =
            read_domain-append rest more (λ early. h (rw (good, bad) (rw bad at early))) in
          rw (good, final, bad)
      | inl ((domain, used), domain_read) ↦
          let final = read_domain-append rest more (λ early. rw domain_read at early) in
          rw good (
            rw (final, domain_read)
              (after_domain-append (first ∷ rest) more version domain used
                (omega (arith, read_domain_used rest domain used domain_read))
                (λ early. h (rw (good, domain_read) early))))
    ]
  ]
