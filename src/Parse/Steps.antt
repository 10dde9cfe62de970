-- ===== src/Parse/Steps.antt =====
-- `parse_one` in steps: the header up to the payload length, then `read_rest`.
use owid_rust.Prelude.{
  ℕ, suc, ◌+◌, ◌-◌, ◌≤◌, ◌≡◌, ◌≢◌, refl, ◌∷◌, Bool, true, false, ok, >>=-eq-ok, length, take, drop,
  ltb, leb, not, arith, le→leb, ge→ltb,
}
use owid_rust.Prelude.Int.{sub_ℕ}
use owid_rust.Text.{Str, text}
use owid_rust.Platform.{Machine, Chrono}
use owid_rust.Error.{ParseStatus, ParseDetail}
use owid_rust.Version.{Version, as_byte, try_from, empty, version1, version2, version3}
use owid_rust.Io.{Bytes, signature_length}
use owid_rust.Owid.{Owid, from_parts}
use owid_rust.Parse.{
  Extent, whole_buffer, prefix, version_of, count_check, end_check, guard, read_domain, date_length,
  read_date, from_le_bytes, read_rest, parse_one,
}

pub version_of-as_byte :
    (v : Version) → v ≢ empty → version_of (as_byte v) (try_from (as_byte v)) ≡ ok v
unfolding as_byte try_from
version_of-as_byte empty h = absurd (h refl)
version_of-as_byte version1 h = refl
version_of-as_byte version2 h = refl
version_of-as_byte version3 h = refl

pub version_of-ok :
    (byte : ℕ) (v : Version)
    → version_of byte (try_from byte) ≡ ok v
    → (v ≢ empty) × (byte ≡ as_byte v)
unfolding as_byte try_from
version_of-ok byte empty h = ground arith
version_of-ok byte version1 h = ground arith
version_of-ok byte version2 h = ground arith
version_of-ok byte version3 h = ground arith

-- What a count of `left` bytes after the length field has to be.
abbrev pub Fits : Extent → ℕ → ℕ → Type 0
Fits whole_buffer left declared = left ≡ declared + 64
Fits prefix left declared = declared + 64 ≤ left

pub count_check_lem :
    (extent : Extent) (left declared : ℕ)
    → Fits extent left declared
    → count_check extent declared (sub_ℕ left signature_length) ≡ ok tt
count_check_lem whole_buffer left declared h = ground arith
count_check_lem prefix left declared h = ground arith

pub count_check-ok :
    (extent : Extent) (left declared : ℕ)
    → count_check extent declared (sub_ℕ left signature_length) ≡ ok tt
    → Fits extent left declared
count_check-ok whole_buffer left declared h = ground arith
count_check-ok prefix left declared h = ground arith

guard-ok :
    (b : Bool) (status : ParseStatus) (detail : ParseDetail)
    → guard b status detail ≡ ok tt
    → b ≡ true
guard-ok true status detail h = refl
guard-ok false status detail h = cc

end_check_lem : (extent : Extent) (at total : ℕ) → at ≡ total → end_check extent at total ≡ ok tt
end_check_lem whole_buffer at total h = ground arith
end_check_lem prefix at total h = refl

-- The build can hold the payload.
pub record HasRoom (m : Machine) (declared : ℕ) : Type 0 where
  pub addressable : declared ≤ m.usize_max
  pub reserved : m.can_reserve declared ≡ true

module _ (m : Machine) (c : Chrono) where
  pub end_check-Fits :
      (extent : Extent) (total at declared : ℕ)
      → at ≤ total
      → Fits extent (total - at) declared
      → end_check extent (at + declared + signature_length) total ≡ ok tt
  end_check-Fits whole_buffer total at declared le h = ground arith
  end_check-Fits prefix total at declared le h = refl

  pub read_rest_lem :
      (buffer : Bytes) (extent : Extent) (at declared : ℕ) (version : Version) (domain : Str)
      (date : c.DateTime)
      → at ≤ length buffer
      → Fits extent (length buffer - at) declared
      → HasRoom m declared
      → read_rest m c buffer extent at declared version domain date
        ≡ ok (
          from_parts version domain date
              (take declared (drop at buffer))
              (take signature_length (drop (at + declared) buffer)),
          at + declared + signature_length,
        )
  unfolding read_rest
  read_rest_lem buffer extent at declared version domain date le fits room =
      rw (count_check_lem extent _ declared fits) (
        rw (le→leb _ _ room.addressable)
          (rw room.reserved (rw (end_check-Fits extent _ at declared le fits))))

  pub read_rest-ok :
      (buffer : Bytes) (extent : Extent) (at declared : ℕ) (version : Version) (domain : Str)
      (date : c.DateTime) (r : Owid c × ℕ)
      → read_rest m c buffer extent at declared version domain date ≡ ok r
      → Fits extent (length buffer - at) declared
        × HasRoom m declared
        × (r ≡ (
          from_parts version domain date
              (take declared (drop at buffer))
              (take signature_length (drop (at + declared) buffer)),
          at + declared + signature_length,
        ))
  unfolding read_rest
  read_rest-ok buffer extent at declared version domain date r h =
      let (u, count, h1) =
        >>=-eq-ok (count_check extent declared (sub_ℕ (length buffer - at) 64)) _ h in
      let (u1, wide, h2) = >>=-eq-ok (guard (leb declared m.usize_max) _ _) _ h1 in
      let (u2, room, h3) = >>=-eq-ok (guard (m.can_reserve declared) _ _) _ h2 in
      let (u3, end, h4) = >>=-eq-ok (end_check extent _ _) _ h3 in
      (
        count_check-ok extent _ declared count,
        record {
          addressable = ground (arith, guard-ok _ _ _ wide);
          reserved = guard-ok _ _ _ room;
        },
        ground (arith, h4),
      )

  pub record Header (first : ℕ) (rest : Bytes) (version : Version) (domain : Str) (used : ℕ)
      (date : c.DateTime) : Type 0 where
    pub version_read : version_of first (try_from first) ≡ ok version
    pub domain_read : read_domain rest ≡ ok (domain, used)
    pub date_read : read_date c (drop (1 + used) (first ∷ rest)) version ≡ ok date
    pub enough : 4 ≤ suc (length rest) - (1 + used + date_length version)

  pub parse_one-Header :
      (first : ℕ) (rest : Bytes) (extent : Extent) (version : Version) (domain : Str) (used : ℕ)
      (date : c.DateTime)
      → Header first rest version domain used date
      → parse_one m c (first ∷ rest) extent
        ≡ read_rest m c
            (first ∷ rest)
            extent
            (1 + used + date_length version + 4)
            (from_le_bytes (first ∷ rest) (1 + used + date_length version))
            version
            domain
            date
  unfolding parse_one
  parse_one-Header first rest extent version domain used date h =
      rw h.version_read (rw h.domain_read (rw h.date_read (rw (ge→ltb _ _ h.enough))))

  pub Header-parse_one :
      (first : ℕ) (rest : Bytes) (extent : Extent) (r : Owid c × ℕ)
      → parse_one m c (first ∷ rest) extent ≡ ok r
      → (version : Version) × (domain : Str) × (used : ℕ) × (date : c.DateTime) × Header first rest
          version domain used date
        × (read_rest m c
              (first ∷ rest)
              extent
              (1 + used + date_length version + 4)
              (from_le_bytes (first ∷ rest) (1 + used + date_length version))
              version
              domain
              date
            ≡ ok r)
  unfolding parse_one
  Header-parse_one first rest extent r h =
      let (version, version_read, h1) = >>=-eq-ok (version_of first (try_from first)) _ h in
      let (field, domain_read, h2) = >>=-eq-ok (read_domain rest) _ h1 in
      let (date, date_read, h3) = >>=-eq-ok (read_date c _ version) _ h2 in
      let long = not (ltb (suc (length rest) - (1 + field.1 + date_length version)) 4) in
      let detail = ParseDetail.field (text "the payload length") in
      let (u, enough, h4) = >>=-eq-ok (guard long ParseStatus.unexpected_end detail) _ h3 in
      (
        version,
        field.0,
        field.1,
        date,
        record {
          version_read = version_read;
          domain_read = domain_read;
          date_read = date_read;
          enough = ground (arith, guard-ok long ParseStatus.unexpected_end detail enough);
        },
        h4,
      )
