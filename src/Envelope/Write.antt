-- ===== src/Envelope/Write.antt =====
-- What the writes of io.rs and owid.rs put into the buffer.
use owid_rust.Prelude.{
  ℕ, ◌^◌, ◌≤◌, ◌<◌, ◌≡◌, ◌≢◌, refl, sym, ◌∙◌, ap, ◌↔◌, [], ◌∷◌, ◌++◌, false, some, Result, ok, err,
  length, append_assoc, append-nil, any, ◌==◌, All, arith, ge→ltb, lt→ltb,
}
use owid_rust.Text.Utf8.{as_bytes}
use owid_rust.Text.Utf8.RoundTrip.{IsChar}
use owid_rust.Text.{Str}
use owid_rust.Error.{Error}
use owid_rust.Platform.{Chrono}
use owid_rust.Version.{Version, as_byte, empty, version1, version2, version3}
use owid_rust.Io.{
  Bytes, Write, proceed, to_le_bytes, write_byte, write_domain, write_u32, write_byte_array,
  write_date, write_signature,
}
use owid_rust.Owid.{Owid, to_buffer_no_signature, to_buffer}
use owid_rust.Envelope.{date_count, date_bytes, layout, envelope, IsWritable, IsEncodable}

write_date_lem :
    (c : Chrono) (version : Version) (date : c.DateTime) (n : ℕ) (buffer : Bytes)
    → date_count c version date ≡ some n
    → write_date c date version buffer ≡ (ok tt, buffer ++ date_bytes version n)
unfolding write_date write_u32
write_date_lem c empty date n buffer h = cc
write_date_lem c version1 date n buffer h = rw (h, append_assoc)
write_date_lem c version2 date n buffer h = rw h
write_date_lem c version3 date n buffer h = rw h

write_date-ok :
    (c : Chrono) (version : Version) (date : c.DateTime) (buffer : Bytes)
    → (write_date c date version buffer).0 ≡ ok tt
    → (version ≢ empty) × ((n : ℕ) × (date_count c version date ≡ some n))
unfolding write_date write_u32
write_date-ok c empty date buffer h = ground arith
write_date-ok c version1 date buffer h = ground arith
write_date-ok c version2 date buffer h = ground arith
write_date-ok c version3 date buffer h = ground arith

write_byte_array_lem :
    (value buffer : Bytes)
    → length value < 2 ^ 32
    → write_byte_array value buffer ≡ (ok tt, (buffer ++ to_le_bytes (length value)) ++ value)
unfolding write_byte_array
write_byte_array_lem value buffer h = rw (lt→ltb _ _ h)

pub proceed-ok :
    (r : Result (Unit {0}) Error) (next : Write) (buffer : Bytes)
    → (proceed r next buffer).0 ≡ ok tt
    → (r ≡ ok tt) × ((next buffer).0 ≡ ok tt)
proceed-ok (ok u) next buffer h = (refl, h)
proceed-ok (err e) next buffer h = cc

write_domain-ok :
    (value : Str) (buffer : Bytes)
    → (write_domain value buffer).0 ≡ ok tt
    → (any (λ b. b == 0) (as_bytes value) ≡ false) × (length (as_bytes value) ≤ 253)
unfolding write_domain
write_domain-ok value buffer h = ground arith

write_byte_array-ok :
    (value buffer : Bytes) → (write_byte_array value buffer).0 ≡ ok tt → length value < 2 ^ 32
unfolding write_byte_array
write_byte_array-ok value buffer h = ground arith

write_signature-ok :
    (value buffer : Bytes) → (write_signature value buffer).0 ≡ ok tt → length value ≡ 64
unfolding write_signature
write_signature-ok value buffer h = ground arith

module _ {c : Chrono} (owid : Owid c) where
  write_domain_lem :
      (n : ℕ) (buffer : Bytes)
      → IsWritable owid n
      → write_domain owid.domain buffer ≡ (ok tt, (buffer ++ as_bytes owid.domain) ++ 0 ∷ [])
  unfolding write_domain
  write_domain_lem n buffer w = rw w.no_nul (rw (ge→ltb 253 _ w.short))

  pub to_buffer_no_signature_lem :
      (n : ℕ) (buffer : Bytes)
      → IsWritable owid n
      → to_buffer_no_signature owid buffer
        ≡ (ok tt, buffer ++ layout owid.version owid.domain n owid.payload [])
  unfolding to_buffer_no_signature write_byte layout
  to_buffer_no_signature_lem n buffer w = rw (write_domain_lem n _ w) (
      rw (write_date_lem c owid.version owid.date n _ w.dated)
        (rw (write_byte_array_lem owid.payload _ w.sized) (simp (append_assoc, append-nil))))

  -- What has a domain that is refused, a date out of range or a payload too large is not written.
  pub to_buffer_no_signature-ok :
      (buffer : Bytes)
      → All IsChar owid.domain
      → (to_buffer_no_signature owid buffer).0 ≡ ok tt
      → (n : ℕ) × IsWritable owid n
  unfolding to_buffer_no_signature
  to_buffer_no_signature-ok buffer h e =
      let (byte, e1) = proceed-ok (write_byte (as_byte owid.version) buffer).0 _ _ e in
      let (domain, e2) = proceed-ok (write_domain owid.domain _).0 _ _ e1 in
      let (date, e3) = proceed-ok (write_date c owid.date owid.version _).0 _ _ e2 in
      let (known, dated) = write_date-ok c owid.version owid.date _ date in
      let (no_nul, short) = write_domain-ok owid.domain _ domain in
      (
        dated.0,
        record {
          known = known;
          chars = h;
          no_nul = no_nul;
          short = short;
          dated = dated.1;
          sized = write_byte_array-ok owid.payload _ e3;
        },
      )

  pub to_buffer_lem :
      (n : ℕ) (buffer : Bytes)
      → IsEncodable owid n
      → to_buffer owid buffer ≡ (ok tt, buffer ++ envelope owid n)
  unfolding to_buffer write_signature layout
  to_buffer_lem n buffer w =
      rw (to_buffer_no_signature_lem n buffer w.writable)
        (rw w.signed (simp (append_assoc, append-nil)))

  pub to_buffer-ok :
      (buffer : Bytes)
      → All IsChar owid.domain
      → (to_buffer owid buffer).0 ≡ ok tt
      → (n : ℕ) × IsEncodable owid n
  unfolding to_buffer
  to_buffer-ok buffer h e =
      let (fields, signature) = proceed-ok (to_buffer_no_signature owid buffer).0 _ _ e in
      let (n, w) = to_buffer_no_signature-ok buffer h fields in
      (n, record { writable = w; signed = write_signature-ok owid.signature _ signature })

-- `to_buffer` succeeds exactly on the OWIDs whose fields fit the format, and then it appends the
-- bytes of the format to the buffer and changes nothing before them.
pub to_buffer_iff :
    {c : Chrono} (owid : Owid c) (buffer out : Bytes)
    → All IsChar owid.domain
    → (to_buffer owid buffer ≡ (ok tt, out))
      ↔ ((n : ℕ) × IsEncodable owid n × (out ≡ buffer ++ envelope owid n))
to_buffer_iff owid buffer out h = (
  λ e.
      let (n, w) = to_buffer-ok owid buffer h (ap (λ t. t.0) e) in
      (n, w, sym (ap (λ t. t.1) e) ∙ ap (λ t. t.1) (to_buffer_lem owid n buffer w)),
  λ k. rw (to_buffer_lem owid k.0 buffer k.1) (cc k.2),
)
