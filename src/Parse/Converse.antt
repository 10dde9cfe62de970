-- ===== src/Parse/Converse.antt =====
-- The reads of parse.rs against the format: what is read was laid out so.
use owid_rust.Prelude.{
  ℕ, suc, ◌+◌, ◌-◌, ◌^◌, ◌≤◌, ◌<◌, ◌≡◌, sym, ap, ◌∙◌, subst, List, ◌∷◌, ◌++◌, ok, length,
  length-take, length-drop, take, drop, drop-drop, take-append-drop, All, All-drop, length-eq-zero,
  arith,
}
use owid_rust.Text.{Str}
use owid_rust.Text.Utf8.{as_bytes}
use owid_rust.Text.Utf8.RoundTrip.{IsByte}
use owid_rust.Platform.{Machine, Chrono}
use owid_rust.Version.{Version, as_byte}
use owid_rust.Io.{Bytes, signature_length, to_le_bytes}
use owid_rust.Owid.{Owid, from_parts}
use owid_rust.Envelope.{date_at, date_bytes, layout, IsWellFormed}
use owid_rust.Envelope.Capacity.{length-layout}
use owid_rust.Parse.{Extent, whole_buffer, prefix, date_length, from_le_bytes, parse_one}
use owid_rust.Parse.Fields.{
  read_domain-ok, read_date-ok, from_le_bytes_at, to_le_bytes-from_le_bytes,
}
use owid_rust.Parse.Steps.{version_of-ok, Fits, HasRoom, Header, read_rest-ok, Header-parse_one}
use owid_rust.Parse.RoundTrip.{date_length-date_bytes, Ends, header}

-- What a successful read says of the buffer: it starts with the format of the fields, the bytes
-- used are those, and what follows is the remainder.
pub record IsRead (m : Machine) (c : Chrono) (buffer : Bytes) (extent : Extent) (r : Owid c × ℕ)
    : Type 0 where
  pub count : ℕ
  pub fields : IsWellFormed r.0.version r.0.domain count r.0.payload r.0.signature
  pub date_read : r.0.date ≡ date_at c r.0.version count
  pub front :
      buffer ≡ layout r.0.version r.0.domain count r.0.payload (r.0.signature ++ drop r.1 buffer)
  pub used : r.1 ≡ length (layout r.0.version r.0.domain count r.0.payload r.0.signature)
  pub ends : Ends extent (drop r.1 buffer)
  pub room : HasRoom m (length r.0.payload)

drop-Ends :
    (extent : Extent) (buffer : Bytes) (at declared : ℕ)
    → Fits extent (length buffer - at) declared
    → Ends extent (drop (at + declared + 64) buffer)
drop-Ends whole_buffer buffer at declared h =
    length-eq-zero _ (omega (arith, length-drop (at + declared + 64) buffer))
drop-Ends prefix buffer at declared h = tt

pub Fits-le :
    (extent : Extent) (left declared : ℕ) → Fits extent left declared → declared + 64 ≤ left
Fits-le whole_buffer left declared h = omega arith
Fits-le prefix left declared h = h

split_at {ℓ} :
    {A : Type ℓ} (k n : ℕ) (xs : List A) → drop k xs ≡ take n (drop k xs) ++ drop (k + n) xs
split_at k n xs = rw (← drop-drop k n xs) (sym (take-append-drop n (drop k xs)))

length_field :
    (bytes : Bytes) (at : ℕ)
    → All IsByte bytes
    → 4 ≤ length bytes - at
    → (from_le_bytes bytes at < 2 ^ 32)
      × (drop at bytes ≡ to_le_bytes (from_le_bytes bytes at) ++ drop (at + 4) bytes)
length_field bytes at h room =
    rw (from_le_bytes_at, ← drop-drop at 4 bytes)
      (to_le_bytes-from_le_bytes (drop at bytes) (All-drop IsByte at bytes h)
        (omega (arith, length-drop at bytes)))

assemble :
    (first : ℕ) (version : Version) (domain : Str) (n declared : ℕ)
    (payload signature left rest b1 b2 b3 b4 : Bytes)
    → first ≡ as_byte version
    → rest ≡ as_bytes domain ++ 0 ∷ b1
    → b1 ≡ date_bytes version n ++ b2
    → b2 ≡ to_le_bytes declared ++ b3
    → length payload ≡ declared
    → b3 ≡ payload ++ b4
    → b4 ≡ signature ++ left
    → first ∷ rest ≡ layout version domain n payload (signature ++ left)
unfolding layout
assemble first version domain n declared payload signature left rest b1 b2 b3 b4 e0 e1 e2 e3 e4 e5
      e6 =
    rw (e0, e1, e2, e3, e5, e6, e4)

-- The payload and the signature are as long as they are to be.
sizes :
    (buffer : Bytes) (at declared : ℕ)
    → declared + 64 ≤ length buffer - at
    → (length (take declared (drop at buffer)) ≡ declared)
      × (length (take 64 (drop (at + declared) buffer)) ≡ 64)
sizes buffer at declared room = (
  omega (arith, length-take declared (drop at buffer), length-drop at buffer),
  omega (arith, length-take 64 (drop (at + declared) buffer), length-drop (at + declared) buffer),
)

module _ (m : Machine) (c : Chrono) (first : ℕ) (rest : Bytes) (extent : Extent)
    (bytes : All IsByte (first ∷ rest)) where
  abbrev buffer : Bytes
  buffer = first ∷ rest

  Header-front :
      (version : Version) (domain : Str) (used : ℕ) (date : c.DateTime) (n : ℕ)
      → (let at_length = 1 + used + date_length version in
          let declared = from_le_bytes buffer at_length in
          let at = at_length + 4 in
          Header m c first rest version domain used date
          → drop (1 + used) buffer
            ≡ date_bytes version n ++ drop (date_length version) (drop (1 + used) buffer)
          → length (take declared (drop at buffer)) ≡ declared
          → buffer
            ≡ layout version domain n
                (take declared (drop at buffer))
                (take 64 (drop (at + declared) buffer) ++ drop (at + declared + 64) buffer))
  Header-front version domain used date n h dated payload_size =
      let at_length = 1 + used + date_length version in
      let declared = from_le_bytes buffer at_length in
      let at = at_length + 4 in
      let (known, first_read) = version_of-ok first version h.version_read in
      let (chars, no_nul, short, used_read, rest_read) =
        read_domain-ok rest domain used h.domain_read in
      let (range, length_read) = length_field buffer at_length bytes h.enough in
      let at_1 : drop used rest ≡ drop (1 + used) buffer =
        let e : 1 + used ≡ suc used = omega arith in rw e in
      assemble first version domain n declared (take declared (drop at buffer))
        (take 64 (drop (at + declared) buffer)) (drop (at + declared + 64) buffer) rest
        (drop (1 + used) buffer) (drop at_length buffer) (drop at buffer)
        (drop (at + declared) buffer) first_read
        (rest_read ∙ ap (λ t. as_bytes domain ++ 0 ∷ t) at_1)
        (dated
          ∙ ap (λ t. date_bytes version n ++ t) (drop-drop (1 + used) (date_length version) buffer))
        length_read payload_size (split_at at declared buffer) (split_at (at + declared) 64 buffer)

  -- The read in terms of what the steps found.
  Header-IsRead :
      (version : Version) (domain : Str) (used : ℕ) (date : c.DateTime)
      → Header m c first rest version domain used date
      → (let at = 1 + used + date_length version + 4 in
          let declared = from_le_bytes buffer (1 + used + date_length version) in
          Fits extent (length buffer - at) declared
          → HasRoom m declared
          → IsRead m c buffer extent (
            from_parts version domain date
                (take declared (drop at buffer))
                (take signature_length (drop (at + declared) buffer)),
            at + declared + signature_length,
          ))
  Header-IsRead version domain used date h fits room =
      let at_length = 1 + used + date_length version in
      let declared = from_le_bytes buffer at_length in
      let at = at_length + 4 in
      let (known, first_read) = version_of-ok first version h.version_read in
      let (chars, no_nul, short, used_read, rest_read) =
        read_domain-ok rest domain used h.domain_read in
      let (dated, count) =
        read_date-ok c (drop (1 + used) buffer) version date
          (All-drop IsByte (1 + used) buffer bytes) known h.date_read in
      let (range, length_read) = length_field buffer at_length bytes h.enough in
      let room_left : declared + 64 ≤ length buffer - at = Fits-le extent _ declared fits in
      let (payload_size, signature_size) = sizes buffer at declared room_left in
      record {
        count = count.0;
        fields = record {
          known = known;
          chars = chars;
          no_nul = no_nul;
          short = short;
          counted = count.1;
          sized = omega (arith, range, payload_size);
          signed = signature_size;
        };
        date_read = count.2;
        front = Header-front version domain used date count.0 h count.3 payload_size;
        used = omega (
          arith,
          length-layout version domain count.0 (take declared (drop at buffer))
              (take 64 (drop (at + declared) buffer)),
          payload_size,
          signature_size,
          used_read,
          date_length-date_bytes version count.0,
        );
        ends = drop-Ends extent buffer at declared fits;
        room = subst (HasRoom m) (sym payload_size) room;
      }

  pub parse_one-IsRead :
      (r : Owid c × ℕ) → parse_one m c buffer extent ≡ ok r → IsRead m c buffer extent r
  parse_one-IsRead r e =
      let (version, domain, used, date, header, tail) =
        Header-parse_one m c first rest extent r e in
      let (fits, room, result) = read_rest-ok m c buffer extent _ _ version domain date r tail in
      subst (IsRead m c buffer extent) (sym result)
        (Header-IsRead version domain used date header fits room)
