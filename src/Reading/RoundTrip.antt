-- ===== src/Reading/RoundTrip.antt =====
-- Writing and then reading, and reading and then writing.
use owid_rust.Prelude.{
  ℕ, ◌^◌, ◌≤◌, ◌<◌, ◌≡◌, ◌≢◌, refl, sym, ap, ◌∙◌, [], ◌∷◌, ◌++◌, true, Option, none, some, ok,
  >>=-eq-ok, length, append-nil, All, arith,
}
use owid_rust.Prelude.Int.{ℤ, pos, negsuc, try_below}
use owid_rust.Text.Utf8.RoundTrip.{IsByte, IsChar}
use owid_rust.Platform.{Machine, Chrono, IsChrono}
use owid_rust.Version.{Version, empty, version1, version2, version3}
use owid_rust.Io.{Bytes, base_date, minutes_since_base}
use owid_rust.Owid.{Owid, as_byte_array}
use owid_rust.Envelope.{date_count, date_at, layout, envelope, IsCount, IsWellFormed, IsEncodable}
use owid_rust.Envelope.Capacity.{IsWide, as_byte_array_lem, as_byte_array_iff}
use owid_rust.Parse.{Extent, whole_buffer, parse_one, parse_exact}
use owid_rust.Parse.Steps.{HasRoom}
use owid_rust.Parse.RoundTrip.{parse_one_lem}
use owid_rust.Parse.Converse.{IsRead, parse_one-IsRead}
use owid_rust.Reading.{from_byte_array}

try_below-lt : (bound : ℕ) (z : ℤ) (n : ℕ) → try_below bound z ≡ some n → n < bound
try_below-lt bound (pos k) n h = ground arith
try_below-lt bound (negsuc k) n h = cc

pub date_count-IsCount :
    (c : Chrono) (version : Version) (date : c.DateTime) (n : ℕ)
    → date_count c version date ≡ some n
    → IsCount version n
unfolding minutes_since_base
date_count-IsCount c empty date n h = cc
date_count-IsCount c version1 date n h =
    try_below-lt (2 ^ 16) (c.num_hours (c.difference date (base_date c))) n h
date_count-IsCount c version2 date n h =
    try_below-lt (2 ^ 32) (c.num_minutes (c.difference date (base_date c))) n h
date_count-IsCount c version3 date n h =
    try_below-lt (2 ^ 32) (c.num_minutes (c.difference date (base_date c))) n h

-- A date that was read is counted as it stood in the bytes.
pub date_count-date_at :
    (c : Chrono) (laws : IsChrono c) (version : Version) (n : ℕ)
    → version ≢ empty
    → IsCount version n
    → date_count c version (date_at c version n) ≡ some n
unfolding minutes_since_base
date_count-date_at c laws empty n known h = absurd (known refl)
date_count-date_at c laws version1 n known h =
    rw (laws.hours_later 1577836800 n h (omega arith)) (ground arith)
date_count-date_at c laws version2 n known h =
    rw (laws.minutes_later 1577836800 n h (omega arith)) (ground arith)
date_count-date_at c laws version3 n known h =
    rw (laws.minutes_later 1577836800 n h (omega arith)) (ground arith)

pub IsEncodable-IsWellFormed :
    {c : Chrono} (owid : Owid c) (n : ℕ)
    → IsEncodable owid n
    → IsWellFormed owid.version owid.domain n owid.payload owid.signature
IsEncodable-IsWellFormed {c} owid n w = record {
  known = w.writable.known;
  chars = w.writable.chars;
  no_nul = w.writable.no_nul;
  short = w.writable.short;
  counted = date_count-IsCount c owid.version owid.date n w.writable.dated;
  sized = w.writable.sized;
  signed = w.signed;
}

-- The OWID with its date cut to the whole hours or minutes that its version carries.
abbrev pub at_count : {c : Chrono} → Owid c → ℕ → Owid c
at_count {c} owid n = record owid { date = date_at c owid.version n }

abbrev pub cut_to : {c : Chrono} → Owid c → Option ℕ → Owid c
cut_to owid none = owid
cut_to owid (some n) = at_count owid n

-- The date cut to whole hours in version 1, and to whole minutes later.
abbrev pub cut_date : {c : Chrono} → Owid c → Owid c
cut_date {c} owid = cut_to owid (date_count c owid.version owid.date)

module _ (m : Machine) (c : Chrono) where
  pub parse_exact-ok :
      (buffer : Bytes) (owid : Owid c)
      → parse_exact m c buffer ≡ ok owid
      → (used : ℕ) × (parse_one m c buffer whole_buffer ≡ ok (owid, used))
  unfolding parse_exact
  parse_exact-ok buffer owid h =
      let (r, read, done) = >>=-eq-ok (parse_one m c buffer whole_buffer) _ h in
      (r.1, ground (arith, read, done))

  -- What `as_byte_array` returns, `from_byte_array` reads back as the same OWID, its date cut to the
  -- hours or minutes of its version, where the payload can be reserved.
  pub from_byte_array-as_byte_array :
      (owid : Owid c) (bytes : Bytes)
      → IsWide m
      → All IsChar owid.domain
      → as_byte_array m owid ≡ ok bytes
      → m.can_reserve (length owid.payload) ≡ true
      → from_byte_array m c bytes ≡ ok (cut_date owid)
  unfolding from_byte_array parse_exact
  from_byte_array-as_byte_array owid bytes wide chars h room =
      let (n, w, same, fits, reserved) = (as_byte_array_iff m owid bytes wide chars).0 h in
      let holds : HasRoom m (length owid.payload) = record {
        addressable = omega (arith, wide, w.writable.sized);
        reserved = room;
      } in
      let read =
        parse_one_lem m c owid.version owid.domain n owid.payload owid.signature
          (IsEncodable-IsWellFormed owid n w) whole_buffer [] refl holds in
      rw w.writable.dated (rw same (rw (rw append-nil at read)))

  IsRead-IsEncodable :
      (laws : IsChrono c) (buffer : Bytes) (extent : Extent) (r : Owid c × ℕ)
      → (read : IsRead m c buffer extent r) → IsEncodable r.0 read.count
  IsRead-IsEncodable laws buffer extent r read = record {
    writable = record {
      known = read.fields.known;
      chars = read.fields.chars;
      no_nul = read.fields.no_nul;
      short = read.fields.short;
      dated =
          rw read.date_read (
            date_count-date_at c laws r.0.version read.count read.fields.known read.fields.counted);
      sized = read.fields.sized;
    };
    signed = read.fields.signed;
  }

  pub parse_one-nonempty :
      (buffer : Bytes) (extent : Extent) (r : Owid c × ℕ)
      → All IsByte buffer
      → parse_one m c buffer extent ≡ ok r
      → IsRead m c buffer extent r
  parse_one-nonempty [] extent r bytes h = unfold parse_one in cc
  parse_one-nonempty (first ∷ rest) extent r bytes h =
      parse_one-IsRead m c first rest extent bytes r h

  -- A buffer that is read as an OWID holds the bytes of the format for it, and no byte more.
  from_byte_array-envelope :
      (laws : IsChrono c) (buffer : Bytes) (owid : Owid c)
      → All IsByte buffer
      → from_byte_array m c buffer ≡ ok owid
      → (n : ℕ) × IsEncodable owid n × (buffer ≡ envelope owid n)
  unfolding from_byte_array
  from_byte_array-envelope laws buffer owid bytes h =
      let (used, one) = parse_exact-ok buffer owid h in
      let read = parse_one-nonempty buffer whole_buffer (owid, used) bytes one in
      (
        read.count,
        IsRead-IsEncodable laws buffer whole_buffer (owid, used) read,
        read.front
            ∙ ap (layout owid.version owid.domain read.count owid.payload)
                (ap (λ t. owid.signature ++ t) read.ends ∙ append-nil owid.signature),
      )

  -- An OWID that was read is written as the very bytes it was read from, where `usize` and the
  -- allocator hold them.
  pub as_byte_array-from_byte_array :
      (laws : IsChrono c) (buffer : Bytes) (owid : Owid c)
      → IsWide m
      → All IsByte buffer
      → length buffer ≤ m.usize_max
      → m.can_reserve (length buffer) ≡ true
      → from_byte_array m c buffer ≡ ok owid
      → as_byte_array m owid ≡ ok buffer
  as_byte_array-from_byte_array laws buffer owid wide bytes fits room h =
      let (n, w, same) = from_byte_array-envelope laws buffer owid bytes h in
      rw same (as_byte_array_lem m owid n wide w (rw same at fits) (rw same at room))

  -- No two buffers of bytes are read as one OWID: the format has one form for each.
  pub from_byte_array_injective :
      (laws : IsChrono c) (a b : Bytes) (owid : Owid c)
      → All IsByte a
      → All IsByte b
      → from_byte_array m c a ≡ ok owid
      → from_byte_array m c b ≡ ok owid
      → a ≡ b
  from_byte_array_injective laws a b owid ha hb ra rb =
      let (n, w, same_a) = from_byte_array-envelope laws a owid ha ra in
      let (k, v, same_b) = from_byte_array-envelope laws b owid hb rb in
      let count : n ≡ k = cc (w.writable.dated, v.writable.dated) in
      same_a ∙ ap (envelope owid) count ∙ sym same_b
