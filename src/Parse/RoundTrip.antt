-- ===== src/Parse/RoundTrip.antt =====
-- The reads of parse.rs against the format: what is laid out is read.
use owid_rust.Prelude.{
  ℕ, suc, ◌+◌, ◌≡◌, refl, sym, ◌∙◌, [], ◌∷◌, ◌++◌, ok, length, length-append, append_assoc, take,
  drop, drop-drop, drop-length, take-length, arith,
}
use owid_rust.Text.{Str}
use owid_rust.Text.Utf8.{as_bytes}
use owid_rust.Platform.{Machine, Chrono}
use owid_rust.Version.{Version, as_byte, empty, version1, version2, version3}
use owid_rust.Io.{Bytes, to_le_bytes}
use owid_rust.Owid.{from_parts}
use owid_rust.Envelope.{date_at, date_bytes, layout, IsWellFormed}
use owid_rust.Envelope.Capacity.{length-layout}
use owid_rust.Parse.{Extent, whole_buffer, prefix, date_length, from_le_bytes, parse_one}
use owid_rust.Parse.Fields.{
  read_domain_lem, read_date_lem, from_le_bytes_at, from_le_bytes-to_le_bytes,
}
use owid_rust.Parse.Steps.{
  version_of-as_byte, Fits, HasRoom, Header, read_rest_lem, parse_one-Header,
}

pub date_length-date_bytes :
    (version : Version) (n : ℕ) → length (date_bytes version n) ≡ date_length version
unfolding date_length
date_length-date_bytes empty n = refl
date_length-date_bytes version1 n = refl
date_length-date_bytes version2 n = refl
date_length-date_bytes version3 n = refl

-- The bytes behind each field, from the index that the read has reached.
module _ (version : Version) (domain : Str) (n : ℕ) (payload tail : Bytes) where
  abbrev pub after_date : Bytes
  after_date = to_le_bytes (length payload) ++ (payload ++ tail)

  abbrev pub after_domain : Bytes
  after_domain = date_bytes version n ++ after_date

  abbrev pub after_version : Bytes
  after_version = as_bytes domain ++ (0 ∷ after_domain)

  -- the index of the date
  abbrev pub at_date : ℕ
  at_date = 1 + (length (as_bytes domain) + 1)

  drop_to_date : (first : ℕ) → drop at_date (first ∷ after_version) ≡ after_domain
  drop_to_date first =
      let e : at_date ≡ suc (length (as_bytes domain ++ 0 ∷ [])) =
        omega (arith, length-append (as_bytes domain) (0 ∷ [])) in
      rw e (
        rw (← append_assoc (as_bytes domain) (0 ∷ []) after_domain)
          (drop-length (as_bytes domain ++ 0 ∷ []) after_domain _ refl))

  drop_to_length :
      (first : ℕ) → drop (at_date + date_length version) (first ∷ after_version) ≡ after_date
  drop_to_length first =
      sym (drop-drop at_date (date_length version) (first ∷ after_version))
      ∙ rw drop_to_date
          (drop-length (date_bytes version n) after_date _ (sym (date_length-date_bytes version n)))

  drop_to_payload :
      (first : ℕ)
      → drop (at_date + date_length version + 4) (first ∷ after_version) ≡ payload ++ tail
  drop_to_payload first =
      sym (drop-drop (at_date + date_length version) 4 (first ∷ after_version)) ∙ rw drop_to_length

-- Nothing may follow the envelope where the buffer is to hold one OWID and no more.
abbrev pub Ends : Extent → Bytes → Type 0
Ends whole_buffer rest = rest ≡ []
Ends prefix rest = Unit

Fits-Ends :
    (extent : Extent) (declared left : ℕ) (rest : Bytes)
    → Ends extent rest
    → left ≡ declared + (64 + length rest)
    → Fits extent left declared
Fits-Ends whole_buffer declared left rest e h = rw h (rw e (omega arith))
Fits-Ends prefix declared left rest e h = omega arith

module _ (m : Machine) (c : Chrono) (version : Version) (domain : Str) (n : ℕ)
    (payload signature : Bytes) (w : IsWellFormed version domain n payload signature) where
  abbrev pub laid : Bytes → Bytes
  laid rest = after_version version domain n payload (signature ++ rest)

  abbrev pub at_payload : ℕ
  at_payload = 1 + (length (as_bytes domain) + 1) + date_length version + 4

  pub length-laid :
      (rest : Bytes) → suc (length (laid rest)) ≡ at_payload + (length payload + (64 + length rest))
  unfolding layout
  length-laid rest = omega (
    arith,
    length-layout version domain n payload (signature ++ rest),
    length-append signature rest,
    date_length-date_bytes version n,
    w.signed,
  )

  pub header :
      (rest : Bytes)
      → Header m c
          (as_byte version)
          (laid rest)
          version
          domain
          (length (as_bytes domain) + 1)
          (date_at c version n)
  header rest = record {
    version_read = version_of-as_byte version w.known;
    domain_read = read_domain_lem domain _ w.chars w.no_nul w.short;
    date_read =
        rw (drop_to_date version domain n payload (signature ++ rest) (as_byte version))
          (read_date_lem c version n _ w.known w.counted);
    enough = omega (arith, length-laid rest);
  }

  pub declared-laid :
      (rest : Bytes)
      → from_le_bytes
          (as_byte version ∷ laid rest)
          (1 + (length (as_bytes domain) + 1) + date_length version)
        ≡ length payload
  declared-laid rest = rw from_le_bytes_at (
      rw (drop_to_length version domain n payload (signature ++ rest) (as_byte version))
        (from_le_bytes-to_le_bytes (length payload) _ w.sized))

  payload-laid :
      (rest : Bytes)
      → take (length payload) (drop at_payload (as_byte version ∷ laid rest)) ≡ payload
  payload-laid rest =
      rw (drop_to_payload version domain n payload (signature ++ rest) (as_byte version))
        (take-length payload (signature ++ rest) _ refl)

  signature-laid :
      (rest : Bytes)
      → take 64 (drop (at_payload + length payload) (as_byte version ∷ laid rest)) ≡ signature
  signature-laid rest = rw (← drop-drop at_payload (length payload) (as_byte version ∷ laid rest)) (
      rw (drop_to_payload version domain n payload (signature ++ rest) (as_byte version)) (
        rw (drop-length payload (signature ++ rest) _ refl)
          (take-length signature rest _ (sym w.signed))))

  -- What is laid out is read, from the front of any buffer that the extent allows.
  pub parse_one_lem :
      (extent : Extent) (rest : Bytes)
      → Ends extent rest
      → HasRoom m (length payload)
      → parse_one m c (layout version domain n payload (signature ++ rest)) extent
        ≡ ok (
          from_parts version domain (date_at c version n) payload signature,
          length (layout version domain n payload signature),
        )
  unfolding layout
  parse_one_lem extent rest ends room =
      let size : at_payload + length payload + 64
          ≡ length (layout version domain n payload signature) =
        omega (
          arith,
          length-layout version domain n payload signature,
          date_length-date_bytes version n,
          w.signed,
        ) in
      parse_one-Header m c _ _ extent _ _ _ _ (header rest)
      ∙ rw (declared-laid rest) (
          read_rest_lem m c _ extent at_payload (length payload) version domain _
            (omega (arith, length-laid rest))
            (Fits-Ends extent (length payload) _ rest ends (omega (arith, length-laid rest))) room
          ∙ rw (payload-laid rest) (rw (signature-laid rest) (rw size)))
