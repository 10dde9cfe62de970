-- ===== src/Creator/Received.antt =====
-- What a creator made, on its way to whoever checks it.
use owid_rust.Prelude.{
  ok_unique, map_err-ok, ℕ, ◌≤◌, ◌≡◌, refl, sym, ◌∙◌, ap, [], true, some, ok, >>=-eq-ok, length,
  All, inl, inr, Option-cases,
}
use owid_rust.Text.{Str}
use owid_rust.Text.Utf8.RoundTrip.{IsChar}
use owid_rust.Platform.{Machine, Chrono, IsChrono, P256, IsP256}
use owid_rust.Error.{Error}
use owid_rust.Version.{Version}
use owid_rust.Status.{of, valid}
use owid_rust.Io.{Bytes}
use owid_rust.Owid.{Owid, from_parts, set_signature, signed_bytes, as_byte_array}
use owid_rust.Envelope.{layout, IsWritable, date_count}
use owid_rust.Envelope.Capacity.{IsWide, signed_bytes_lem}
use owid_rust.Reading.{from_byte_array}
use owid_rust.Reading.RoundTrip.{cut_date, from_byte_array-as_byte_array}
use owid_rust.Crypto.{
  new_verify_only, sign_byte_array, verify_byte_array, subject_public_key_info, from_verifying_key,
}
use owid_rust.Creator.{
  Creator, create_version, verify_with_crypto, verify_with_public_key,
  verify_status_with_public_key,
}
use owid_rust.Creator.Verifies.{
  IsPaired, sign_byte_array-ok, verify_byte_array-sign, signed_bytes-cut_date,
  signed_bytes-set_signature,
}

cut_date-signature : {c : Chrono} (owid : Owid c) → (cut_date owid).signature ≡ owid.signature
cut_date-signature {c} owid = elim (Option-cases (date_count c owid.version owid.date)) [
  | inl e ↦ rw e refl
  | inr (n, e) ↦ rw e refl
]

module _ (m : Machine) (c : Chrono) (p : P256) (p256 : IsP256 p) (creator : Creator p) where
  -- The OWID before it is signed.
  abbrev pub unsigned : c.DateTime → Version → Bytes → Owid c
  unsigned now version payload = from_parts version creator.domain now payload []

  create_version-ok :
      (now : c.DateTime) (version : Version) (payload : Bytes) (owid : Owid c)
      → create_version m c p now creator version payload ≡ ok owid
      → (message : Bytes) × (key : p.SigningKey) × (creator.crypto.signing_key ≡ some key)
        × (owid ≡ set_signature (unsigned now version payload) (p.to_bytes (p.sign key message)))
        × (signed_bytes m owid ≡ ok message)
  unfolding create_version
  create_version-ok now version payload owid h =
      let (message, covered, h1) = >>=-eq-ok (signed_bytes m (unsigned now version payload)) _ h in
      let (signature, made, h2) = >>=-eq-ok (sign_byte_array p creator.crypto message) _ h1 in
      let (key, has, same, size) =
        sign_byte_array-ok p p256 creator.crypto message signature made in
      let is : owid ≡ set_signature (unsigned now version payload) signature =
        sym (ok_unique refl (rw size at h2)) in
      (
        message,
        key,
        has,
        is ∙ ap (set_signature (unsigned now version payload)) same,
        rw is (signed_bytes-set_signature m (unsigned now version payload) signature ∙ covered),
      )

  -- What a creator makes verifies with the creator's own keys, where its public key is its signing
  -- key's own.
  pub verify_with_crypto-create_version :
      (now : c.DateTime) (version : Version) (payload : Bytes) (owid : Owid c)
      → IsPaired p creator.crypto
      → create_version m c p now creator version payload ≡ ok owid
      → verify_with_crypto m c p owid creator.crypto ≡ ok true
  unfolding verify_with_crypto
  verify_with_crypto-create_version now version payload owid paired h =
      let (message, key, has, is, covered) = create_version-ok now version payload owid h in
      rw covered (rw is (verify_byte_array-sign p p256 creator.crypto key message (paired key has)))

  -- The creator's published key is read as the key that signed.
  new_verify_only-subject_public_key_info :
      (key : p.VerifyingKey) (pem : Str)
      → creator.crypto.verifying_key ≡ some key
      → subject_public_key_info p creator.crypto ≡ ok pem
      → new_verify_only p pem ≡ ok (from_verifying_key p key)
  unfolding subject_public_key_info new_verify_only
  new_verify_only-subject_public_key_info key pem has h =
      let written = map_err-ok Error.key (p.to_public_key_pem key) (rw has at h) in
      rw (p256.public_pem_dense key pem written, p256.public_pem key pem written) refl

  -- What a creator made and wrote as bytes is read by whoever receives them, its date cut to the
  -- minute or hour, and is valid there under the public key that the creator publishes, where that is
  -- its signing key's own, `usize` has 32 bits or more and the payload can be reserved.
  pub verify_status_with_public_key-received :
      (laws : IsChrono c) (now : c.DateTime) (version : Version) (payload : Bytes) (owid : Owid c)
      (bytes : Bytes) (pem : Str)
      → IsWide m
      → IsPaired p creator.crypto
      → All IsChar creator.domain
      → create_version m c p now creator version payload ≡ ok owid
      → as_byte_array m owid ≡ ok bytes
      → subject_public_key_info p creator.crypto ≡ ok pem
      → m.can_reserve (length payload) ≡ true
      → (from_byte_array m c bytes ≡ ok (cut_date owid))
        × (verify_status_with_public_key m c p (cut_date owid) pem ≡ valid)
  unfolding of verify_status_with_public_key verify_with_public_key verify_with_crypto
  verify_status_with_public_key-received laws now version payload owid bytes pem wide paired chars h
        wrote published room =
      let (message, key, has, is, covered) = create_version-ok now version payload owid h in
      let domain : All IsChar owid.domain = rw is chars in
      let read = from_byte_array-as_byte_array m c owid bytes wide domain wrote (rw is room) in
      let key_read =
        new_verify_only-subject_public_key_info (p.verifying_key key) pem (paired key has)
          published in
      let still = signed_bytes-cut_date m laws owid message domain covered in
      let signature : (cut_date owid).signature ≡ p.to_bytes (p.sign key message) =
        cut_date-signature owid ∙ ap (λ o. o.signature) is in
      let accepted : verify_byte_array p (from_verifying_key p (p.verifying_key key)) message
            (cut_date owid).signature
          ≡ ok true =
        rw signature (verify_byte_array-sign p p256 _ key message refl) in
      (read, rw (key_read, still, accepted) refl)

  pub create_version_total :
      (now : c.DateTime) (version : Version) (payload : Bytes) (n : ℕ) (key : p.SigningKey)
      → IsWide m
      → creator.crypto.signing_key ≡ some key
      → IsWritable (unsigned now version payload) n
      → length (layout version creator.domain n payload []) ≤ m.usize_max
      → m.can_reserve (length (layout version creator.domain n payload [])) ≡ true
      → create_version m c p now creator version payload
        ≡ ok (
            set_signature
              (unsigned now version payload)
              (p.to_bytes (p.sign key (layout version creator.domain n payload []))))
  unfolding create_version sign_byte_array
  create_version_total now version payload n key wide has w fits room =
      let covered = signed_bytes_lem m (unsigned now version payload) n wide w fits room in
      let size = p256.length-to_bytes (p.sign key (layout version creator.domain n payload [])) in
      rw (covered, has) (rw size (rw size refl))
