-- ===== src/Creator/Verifies.antt =====
-- From a creator to whoever checks what it made: what is created verifies, and so does what is
-- read from its bytes.
use owid_rust.Prelude.{
  ℕ, ◌≡◌, refl, ◌∙◌, ap, [], true, false, some, ok, >>=-eq-ok, length, All, inl, inr, Option-cases,
  Result-cases,
}
use owid_rust.Text.Utf8.RoundTrip.{IsChar}
use owid_rust.Platform.{Machine, Chrono, IsChrono, P256, IsP256}
use owid_rust.Io.{Bytes}
use owid_rust.Owid.{Owid, set_signature, signed_bytes, encoded_len, to_buffer_no_signature}
use owid_rust.Envelope.{IsWritable}
use owid_rust.Envelope.Write.{to_buffer_no_signature_lem, to_buffer_no_signature-ok}
use owid_rust.Envelope.Capacity.{filled-ok}
use owid_rust.Reading.RoundTrip.{at_count, cut_date, date_count-date_at, date_count-IsCount}
use owid_rust.Crypto
use owid_rust.Crypto.{
  Crypto, is_blank, new_sign_only, new_verify_only, sign_byte_array, verify_byte_array,
  subject_public_key_info,
}

module _ (p : P256) where
  -- The public key is the signing key's own, as every constructor leaves it.
  abbrev pub IsPaired : Crypto p → Type 0
  IsPaired crypto =
      (key : p.SigningKey)
      → crypto.signing_key ≡ some key
      → crypto.verifying_key ≡ some (p.verifying_key key)

  pub new-IsPaired : (drawn : ℕ) → IsPaired (Crypto.new p drawn)
  unfolding Crypto.new
  new-IsPaired drawn key h = cc

  module _ (laws : IsP256 p) where
    pub sign_byte_array-ok :
        (crypto : Crypto p) (message signature : Bytes)
        → sign_byte_array p crypto message ≡ ok signature
        → (key : p.SigningKey) × (crypto.signing_key ≡ some key)
          × (signature ≡ p.to_bytes (p.sign key message))
          × (length signature ≡ 64)
    unfolding sign_byte_array
    sign_byte_array-ok crypto message signature h = elim (Option-cases crypto.signing_key) [
      | inl e ↦ cc (rw e at h)
      | inr (key, e) ↦
          let size = laws.length-to_bytes (p.sign key message) in
          let done : ok (p.to_bytes (p.sign key message)) ≡ ok signature = rw (e, size) at h in
          let same : signature ≡ p.to_bytes (p.sign key message) = cc in
          (key, e, same, rw same size)
    ]

    -- What a key signed is accepted by the checks of its public key.
    pub verify_byte_array-sign :
        (crypto : Crypto p) (key : p.SigningKey) (message : Bytes)
        → crypto.verifying_key ≡ some (p.verifying_key key)
        → verify_byte_array p crypto message (p.to_bytes (p.sign key message)) ≡ ok true
    unfolding verify_byte_array
    verify_byte_array-sign crypto key message h =
        rw
          (h, laws.length-to_bytes (p.sign key message), laws.from_slice-to_bytes, laws.verify-sign)
          refl

module _ (m : Machine) {c : Chrono} where
  signed_bytes-ok :
      (owid : Owid c) (message : Bytes)
      → All IsChar owid.domain
      → signed_bytes m owid ≡ ok message
      → (n : ℕ) × IsWritable owid n
  unfolding signed_bytes
  signed_bytes-ok owid message chars h =
      let (capacity, count, fill) = >>=-eq-ok (encoded_len m owid false) _ h in
      let (room, wrote) = filled-ok m capacity (to_buffer_no_signature owid) message fill in
      to_buffer_no_signature-ok owid [] chars (ap (λ t. t.0) wrote)

  IsWritable-at_count :
      (laws : IsChrono c) (owid : Owid c) (n : ℕ)
      → IsWritable owid n
      → IsWritable (at_count owid n) n
  IsWritable-at_count laws owid n w = record {
    known = w.known;
    chars = w.chars;
    no_nul = w.no_nul;
    short = w.short;
    dated =
        date_count-date_at c laws owid.version n w.known
          (date_count-IsCount c owid.version owid.date n w.dated);
    sized = w.sized;
  }

  -- The signature covers the date as the format carries it.
  signed_bytes-at_count :
      (laws : IsChrono c) (owid : Owid c) (n : ℕ)
      → IsWritable owid n
      → signed_bytes m (at_count owid n) ≡ signed_bytes m owid
  unfolding signed_bytes encoded_len
  signed_bytes-at_count laws owid n w = elim (Result-cases (encoded_len m owid false)) [
    | inl (capacity, e) ↦
        rw
          (
            e,
            to_buffer_no_signature_lem owid n [] w,
            to_buffer_no_signature_lem (at_count owid n) n [] (IsWritable-at_count laws owid n w),
          )
          refl
    | inr (error, e) ↦ rw e refl
  ]

  pub signed_bytes-cut_date :
      (laws : IsChrono c) (owid : Owid c) (message : Bytes)
      → All IsChar owid.domain
      → signed_bytes m owid ≡ ok message
      → signed_bytes m (cut_date owid) ≡ ok message
  signed_bytes-cut_date laws owid message chars h =
      let (n, w) = signed_bytes-ok owid message chars h in
      rw w.dated (signed_bytes-at_count laws owid n w ∙ h)

  pub signed_bytes-set_signature :
      (owid : Owid c) (signature : Bytes)
      → signed_bytes m (set_signature owid signature) ≡ signed_bytes m owid
  unfolding signed_bytes encoded_len to_buffer_no_signature
  signed_bytes-set_signature owid signature = refl
