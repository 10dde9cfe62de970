-- ===== src/Tests/Signing.antt =====
-- A creator, what it signs and who checks it: the theorems at a toy of the signatures.
use owid_rust.Prelude.{
  ℕ, zero, suc, ◌+◌, ◌≡◌, refl, List, [], ◌∷◌, true, false, some, none, Option, Result, ok, err,
  length, ◌==◌, ==_iff, arith,
}
use owid_rust.Text.{text, is_whitespace}
use owid_rust.Text.Utf8.{as_bytes, encode_char}
use owid_rust.Platform.{P256, IsP256}
use owid_rust.Version.{version3, as_byte}
use owid_rust.Status.{valid, invalid, of}
use owid_rust.Io.{
  Bytes, minutes_since_base, write_byte, write_domain, write_date, write_u32, write_byte_array,
}
use owid_rust.Owid.{
  Owid, as_byte_array, set_signature, signed_bytes, encoded_len, checked_sum,
  to_buffer_no_signature,
}
use owid_rust.Envelope.{layout, envelope, IsWritable, IsEncodable}
use owid_rust.Envelope.Capacity.{as_byte_array_lem}
use owid_rust.Reading.{from_byte_array}
use owid_rust.Reading.RoundTrip.{cut_date}
use owid_rust.Crypto.{verify_byte_array, new_verify_only, subject_public_key_info}
use owid_rust.Creator.{
  Creator, create_version, verify_with_crypto, verify_status_with_public_key,
  verify_with_public_key,
}
use owid_rust.Creator.Received.{
  unsigned, create_version_total, verify_status_with_public_key-received,
}
use owid_rust.Fetch.{KeyAnswer, known, answer_covers, near_edge}
use owid_rust.Fetch.Url.{public_key_url}
use owid_rust.Fetch.Verify.{
  verify, Creators, verify_status, verify_at_url, neighbour_verifies, try_neighbours, beyond,
}
use owid_rust.Fetch.Verify.Outcome.{
  IsVouched, IsUndisputed, verify_status-valid, verify_status-invalid,
}
use owid_rust.Tests.Sample.{machine, clock, clock-IsChrono}

abbrev pub zeros : ℕ → Bytes
zeros zero = []
zeros (suc n) = 0 ∷ zeros n

abbrev read_pem : List ℕ → Result ℕ (List ℕ)
read_pem (label ∷ k ∷ []) = ok k
read_pem _ = err []

abbrev first_byte : List ℕ → Option ℕ
first_byte [] = none
first_byte (b ∷ bs) = some b

-- Keys are numbers, and a signature is the key and the length of what it covers, added.
abbrev pub toy : P256
toy = record {
  SigningKey = ℕ;
  VerifyingKey = ℕ;
  Signature = ℕ;
  random = λ n. n;
  verifying_key = λ k. k;
  from_pkcs8_pem = read_pem;
  from_sec1_pem = read_pem;
  to_pkcs8_pem = λ k. ok (65 ∷ k ∷ []);
  from_public_key_pem = read_pem;
  to_public_key_pem = λ k. ok (65 ∷ k ∷ []);
  sign = λ k message. k + length message;
  to_bytes = λ s. s ∷ zeros 63;
  from_slice = first_byte;
  verify = λ k message s. s == (k + length message);
}

pub toy-IsP256 : IsP256 toy
unfolding is_whitespace
toy-IsP256 = record {
  length-to_bytes = λ s. refl;
  from_slice-to_bytes = λ s. refl;
  verify-sign = λ k message. (==_iff (k + length message) (k + length message)).1 refl;
  public_pem = λ k pem h. let e : pem ≡ 65 ∷ k ∷ [] = cc in rw e refl;
  public_pem_dense = λ k pem h. let e : pem ≡ 65 ∷ k ∷ [] = cc in rw e refl;
}

abbrev pub creator : Creator toy
creator = record {
  domain = text "a.b";
  crypto = record { signing_key = some 3; verifying_key = some 3 };
}

-- 2020-01-01T00:05:30Z
abbrev pub now : ℕ
now = 1577836800 + 330

abbrev pub created : Owid clock
created =
    set_signature (unsigned machine clock toy toy-IsP256 creator now version3 (1 ∷ 2 ∷ []))
      (18 ∷ zeros 63)

writable :
    (signature : Bytes)
    → IsWritable
        (set_signature
          (unsigned machine clock toy toy-IsP256 creator now version3 (1 ∷ 2 ∷ []))
          signature)
        5
unfolding minutes_since_base as_bytes encode_char
writable signature = record {
  known = ground arith;
  chars = omega arith;
  no_nul = refl;
  short = omega arith;
  dated = refl;
  sized = omega arith;
}

create_version_total_example :
    create_version machine clock toy now creator version3 (1 ∷ 2 ∷ [])
    ≡ ok (
        set_signature
          (unsigned machine clock toy toy-IsP256 creator now version3 (1 ∷ 2 ∷ []))
          (toy.to_bytes (toy.sign 3 (layout version3 creator.domain 5 (1 ∷ 2 ∷ []) []))))
unfolding layout as_byte as_bytes encode_char
create_version_total_example =
    create_version_total machine clock toy toy-IsP256 creator now version3 (1 ∷ 2 ∷ []) 5 3
      (omega arith) refl (writable []) (omega arith) refl

pub made : create_version machine clock toy now creator version3 (1 ∷ 2 ∷ []) ≡ ok created
unfolding layout as_byte as_bytes encode_char
made = create_version_total_example

created-IsEncodable : IsEncodable created 5
created-IsEncodable = record { writable = writable (18 ∷ zeros 63); signed = refl }

pub sent : as_byte_array machine created ≡ ok (envelope created 5)
unfolding layout as_bytes encode_char
sent = as_byte_array_lem machine created 5 (omega arith) created-IsEncodable (omega arith) refl

verify_status_with_public_key-received_example :
    (from_byte_array machine clock (envelope created 5) ≡ ok (cut_date created))
    × (verify_status_with_public_key machine clock toy (cut_date created) (65 ∷ 3 ∷ []) ≡ valid)
unfolding subject_public_key_info
verify_status_with_public_key-received_example =
    verify_status_with_public_key-received machine clock toy toy-IsP256 creator clock-IsChrono now
      version3 (1 ∷ 2 ∷ []) created (envelope created 5) (65 ∷ 3 ∷ []) (omega arith) (λ key h. cc)
      (omega arith) made sent refl refl

-- A creator that answers every URL with one key, in force from minute 0 to minute 100.
abbrev pub one_key : ℕ → Creators
one_key key = record { State = Unit; key_at_url = λ s url. (ok (known (65 ∷ key ∷ []) 0 100), s) }

pub accepted : verify_with_public_key machine clock toy created (65 ∷ 3 ∷ []) ≡ ok true
unfolding verify_with_public_key verify_with_crypto new_verify_only is_whitespace signed_bytes
    verify_byte_array encoded_len checked_sum as_bytes encode_char to_buffer_no_signature write_byte
    as_byte write_domain write_date write_u32 minutes_since_base write_byte_array
accepted = refl

pub refused : verify_with_public_key machine clock toy created (65 ∷ 4 ∷ []) ≡ ok false
unfolding verify_with_public_key verify_with_crypto new_verify_only is_whitespace signed_bytes
    verify_byte_array encoded_len checked_sum as_bytes encode_char to_buffer_no_signature write_byte
    as_byte write_domain write_date write_u32 minutes_since_base write_byte_array
refused = refl

reported_valid : (verify_status machine clock toy (one_key 3) created tt (text "https")).0 ≡ valid
unfolding verify_status verify verify_at_url of
reported_valid = rw accepted refl

verify_status-valid_example :
    IsVouched machine clock toy (one_key 3) created (public_key_url created (text "https"))
verify_status-valid_example =
    verify_status-valid machine clock toy (one_key 3) created tt (text "https") reported_valid

-- The minute is 5, near the first edge, where there is no minute before; the last edge is far.
reported_invalid :
    (verify_status machine clock toy (one_key 4) created tt (text "https")).0 ≡ invalid
unfolding verify_status verify_at_url of neighbour_verifies beyond near_edge try_neighbours
    minutes_since_base answer_covers
reported_invalid = rw refused refl

verify_status-invalid_example :
    (answer : KeyAnswer) × ((one_key 4).key_at_url tt (public_key_url created (text "https"))).0
      ≡ ok answer
    × (verify_with_public_key machine clock toy created answer.pem ≡ ok false)
    × IsUndisputed machine clock toy
        (one_key 4)
        created
        (minutes_since_base clock created.date)
        answer
verify_status-invalid_example =
    verify_status-invalid machine clock toy (one_key 4) created tt (text "https") reported_invalid
