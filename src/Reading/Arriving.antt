-- ===== src/Reading/Arriving.antt =====
-- Reading from a source that is still arriving: which answers are final.
use owid_rust.Prelude.{
  ℕ, ◌≤◌, ◌<◌, ◌≡◌, ◌≢◌, ◌⊎◌, refl, sym, ap, ◌∙◌, [], ◌∷◌, ◌++◌, false, Option, some, Result, ok,
  err, length, length-append, drop, drop-append_le, append-nil, All, arith, ◌==◌, Bool-cases, inl,
  inr, ◌↔◌,
}
use owid_rust.Text.Utf8.RoundTrip.{IsByte}
use owid_rust.Platform.{Machine, Chrono}
use owid_rust.Error.{ParseError, ParseStatus}
use owid_rust.Version.{Version, as_byte, empty, version1, version2, version3}
use owid_rust.Io.{Bytes}
use owid_rust.Owid.{Owid}
use owid_rust.Envelope.{envelope, IsEncodable}
use owid_rust.Envelope.Capacity.{length-layout}
use owid_rust.Parse.{Extent, whole_buffer, prefix, parse_one, parse_exact, parse_prefix, frame}
use owid_rust.Parse.Steps.{HasRoom, Header-parse_one, version_of-ok}
use owid_rust.Parse.Stable.{IsEarly, parse_one-append}
use owid_rust.Parse.RoundTrip.{Ends, parse_one_lem}
use owid_rust.Parse.Converse.{IsRead}
use owid_rust.Reading.{from_byte_array, read_from_prefix, of_frame}
use owid_rust.Reading.Frames.{read_from_prefix-envelope}
use owid_rust.Reading.RoundTrip.{parse_one-nonempty, parse_exact-ok, at_count}

-- The answer with more bytes behind the remainder.
abbrev pub with_more :
    {c : Chrono}
    → Bytes
    → Result (Option (Owid c) × Bytes) ParseError
    → Result (Option (Owid c) × Bytes) ParseError
with_more more (ok (owid, rest)) = ok (owid, rest ++ more)
with_more more (err e) = err e

status-cases :
    (s : ParseStatus) → (s ≡ ParseStatus.unexpected_end) ⊎ (s ≢ ParseStatus.unexpected_end)
status-cases ParseStatus.unexpected_end = inl refl
status-cases ParseStatus.parsed = inr (ground arith)
status-cases ParseStatus.missing_input = inr (ground arith)
status-cases ParseStatus.invalid_base64 = inr (ground arith)
status-cases ParseStatus.unsupported_version = inr (ground arith)
status-cases ParseStatus.absent_node = inr (ground arith)
status-cases ParseStatus.invalid_domain_encoding = inr (ground arith)
status-cases ParseStatus.byte_count_mismatch = inr (ground arith)
status-cases ParseStatus.implementation_capacity_exceeded = inr (ground arith)
status-cases ParseStatus.malformed_envelope = inr (ground arith)

as_byte-ne-marker :
    (version : Version) → version ≢ empty → (as_byte version == as_byte empty) ≡ false
unfolding as_byte
as_byte-ne-marker empty h = absurd (h refl)
as_byte-ne-marker version1 h = refl
as_byte-ne-marker version2 h = refl
as_byte-ne-marker version3 h = refl

module _ (m : Machine) (c : Chrono) where
  frame-append :
      (front more : Bytes) (r : Result (Owid c × ℕ) ParseError)
      → ((owid : Owid c) (used : ℕ) → r ≡ ok (owid, used) → used ≤ length front)
      → frame m c (front ++ more) r ≡ with_more more (frame m c front r)
  frame-append front more (ok (owid, used)) h =
      ap (λ t. ok (some owid, t)) (drop-append_le used front more (h owid used refl))
  frame-append front more (err e) h = refl

  used_le :
      (buffer : Bytes) (owid : Owid c) (used : ℕ)
      → All IsByte buffer
      → parse_one m c buffer prefix ≡ ok (owid, used)
      → used ≤ length buffer
  used_le buffer owid used bytes h =
      let read = parse_one-nonempty m c buffer prefix (owid, used) bytes h in
      omega (
        arith,
        read.used,
        ap length read.front,
        length-layout owid.version owid.domain read.count owid.payload owid.signature,
        length-layout owid.version owid.domain read.count owid.payload
            (owid.signature ++ drop used buffer),
        length-append owid.signature (drop used buffer),
      )

  not-IsEarly-frame :
      (front : Bytes) (r : Result (Owid c × ℕ) ParseError)
      → of_frame (frame m c front r) ≢ ParseStatus.unexpected_end
      → ¬ (IsEarly r)
  unfolding of_frame
  not-IsEarly-frame front (ok (owid, used)) h e = e
  not-IsEarly-frame front (err x) h e = h e

  -- An answer other than `UnexpectedEnd` about bytes that have arrived stands when more arrive: they
  -- only lengthen the remainder that is handed back. Only an empty buffer is answered otherwise.
  pub read_from_prefix-append :
      (first : ℕ) (rest more : Bytes)
      → All IsByte (first ∷ rest)
      → of_frame (read_from_prefix m c (first ∷ rest)) ≢ ParseStatus.unexpected_end
      → read_from_prefix m c ((first ∷ rest) ++ more)
        ≡ with_more more (read_from_prefix m c (first ∷ rest))
  unfolding read_from_prefix parse_prefix
  read_from_prefix-append first rest more bytes h = elim (Bool-cases (first == as_byte empty)) [
    | inl marker ↦ rw marker
    | inr other ↦
        let early =
          not-IsEarly-frame (first ∷ rest) (parse_one m c (first ∷ rest) prefix) (rw other at h) in
        rw other (
          rw (parse_one-append m c first rest more early) (
            frame-append (first ∷ rest) more _
              (λ owid used e. used_le (first ∷ rest) owid used bytes e)))
  ]

  cut_short :
      (more : Bytes) (r : Result (Option (Owid c) × Bytes) ParseError) (owid : Option (Owid c))
      → 0 < length more
      → with_more more r ≢ ok (owid, [])
  cut_short more (ok (o, rest)) owid some_more e =
      let empty_rest : rest ++ more ≡ [] = ground (arith, e) in
      absurd (omega (arith, ap length empty_rest, length-append rest more))
  cut_short more (err x) owid some_more e = cc

  -- A frame that is cut anywhere short of its end, but not to nothing, is answered `UnexpectedEnd`, so
  -- a caller waits for the rest; the whole frame can be read, by the hypotheses on it.
  pub read_from_prefix-truncated :
      (owid : Owid c) (n : ℕ) (first : ℕ) (rest more : Bytes)
      → IsEncodable owid n
      → HasRoom m (length owid.payload)
      → All IsByte (first ∷ rest)
      → 0 < length more
      → envelope owid n ≡ (first ∷ rest) ++ more
      → of_frame (read_from_prefix m c (first ∷ rest)) ≡ ParseStatus.unexpected_end
  read_from_prefix-truncated owid n first rest more w room bytes some_more split =
      elim (status-cases (of_frame (read_from_prefix m c (first ∷ rest)))) [
        | inl early ↦ early
        | inr final ↦
            let whole : read_from_prefix m c ((first ∷ rest) ++ more)
                ≡ ok (some (at_count owid n), []) =
              rw (append-nil, split) at (read_from_prefix-envelope m c owid n [] w room) in
            absurd (
              cut_short more (read_from_prefix m c (first ∷ rest)) _ some_more
                (sym (read_from_prefix-append first rest more bytes final) ∙ whole))
      ]

  -- An IsRead result is what `parse_one` answers under any extent that fits what follows.
  IsRead-parse_one :
      (buffer : Bytes) (extent other : Extent) (r : Owid c × ℕ)
      → IsRead m c buffer extent r
      → Ends other (drop r.1 buffer)
      → parse_one m c buffer other ≡ ok r
  IsRead-parse_one buffer extent other r read ends =
      let owid = r.0 in
      let again =
        parse_one_lem m c owid.version owid.domain read.count owid.payload owid.signature
          read.fields other (drop r.1 buffer) ends read.room in
      ap (λ t. parse_one m c t other) read.front
      ∙ again
      ∙ ap (λ t. ok t) (cc (read.used, ap (λ t. record owid { date = t }) read.date_read))

  parse_one-not_marker :
      (first : ℕ) (rest : Bytes) (extent : Extent) (r : Owid c × ℕ)
      → parse_one m c (first ∷ rest) extent ≡ ok r
      → (first == as_byte empty) ≡ false
  parse_one-not_marker first rest extent r h =
      let (version, domain, used, date, header, tail) =
        Header-parse_one m c first rest extent r h in
      let (known, same) = version_of-ok first version header.version_read in
      rw same (as_byte-ne-marker version known)

  frame-whole :
      (buffer : Bytes) (r : Result (Owid c × ℕ) ParseError) (owid : Owid c)
      → frame m c buffer r ≡ ok (some owid, [])
      → (used : ℕ) × (r ≡ ok (owid, used)) × (drop used buffer ≡ [])
  frame-whole buffer (ok (o, used)) owid h = (used, ground (arith, h), ground (arith, h))
  frame-whole buffer (err e) owid h = cc

  -- The whole buffer read and the framed read are one contract: a buffer is read whole as an OWID
  -- exactly when the framed read finds that OWID in it with nothing left over.
  pub from_byte_array-read_from_prefix :
      (buffer : Bytes) (owid : Owid c)
      → All IsByte buffer
      → (from_byte_array m c buffer ≡ ok owid) ↔ (read_from_prefix m c buffer ≡ ok (some owid, []))
  unfolding from_byte_array read_from_prefix parse_exact parse_prefix
  from_byte_array-read_from_prefix [] owid bytes = unfold parse_one in (λ h. cc, λ h. cc)
  from_byte_array-read_from_prefix (first ∷ rest) owid bytes = (
    λ h.
        let (used, one) = parse_exact-ok m c (first ∷ rest) owid h in
        let read = parse_one-nonempty m c (first ∷ rest) whole_buffer (owid, used) bytes one in
        let framed = IsRead-parse_one (first ∷ rest) whole_buffer prefix (owid, used) read tt in
        rw (parse_one-not_marker first rest whole_buffer (owid, used) one)
          (rw framed (ap (λ t. ok (some owid, t)) read.ends)),
    λ h. elim (Bool-cases (first == as_byte empty)) [
      | inl marker ↦ cc (rw marker at h)
      | inr other ↦
          let (used, one, nothing) =
            frame-whole (first ∷ rest) (parse_one m c (first ∷ rest) prefix) owid (rw other at h) in
          let read = parse_one-nonempty m c (first ∷ rest) prefix (owid, used) bytes one in
          rw (IsRead-parse_one (first ∷ rest) prefix whole_buffer (owid, used) read nothing)
    ],
  )
