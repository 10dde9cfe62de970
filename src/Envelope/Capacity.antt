-- ===== src/Envelope/Capacity.antt =====
-- `encoded_len`, and the two serialisations that reserve what it counts.
use owid_rust.Prelude.{
  ℕ, ◌+◌, ◌%◌, ◌^◌, ◌≤◌, ◌<◌, ◌≡◌, ◌≢◌, ◌↔◌, refl, sym, ap, ◌∙◌, List, [], ◌∷◌, true, false, ok,
  err, >>=-eq-ok, length, length-append, leb, ltb, arith, if◌then◌else◌, le→leb, All,
}
use native.Mathlib.Nat.{mod-eq_of_lt}
use owid_rust.Text.Utf8.{as_bytes}
use owid_rust.Text.Utf8.RoundTrip.{IsChar}
use owid_rust.Platform.{Machine, Chrono}
use owid_rust.Error.{Error}
use owid_rust.Version.{Version, empty, version1, version2, version3}
use owid_rust.Io.{Bytes, Write, u32_max}
use owid_rust.Owid.{
  Owid, checked_sum, encoded_len, date_len, filled, as_byte_array, signed_bytes, to_buffer,
}
use owid_rust.Envelope.{date_bytes, layout, envelope, IsWritable, IsEncodable}
use owid_rust.Envelope.Write.{to_buffer_lem, to_buffer-ok, to_buffer_no_signature_lem}

-- A target whose `usize` holds every u32: 32 bits or 64 bits.
abbrev pub IsWide : Machine → Type 0
IsWide m = u32_max ≤ m.usize_max

sum : List ℕ → ℕ
sum [] = 0
sum (l ∷ ls) = l + sum ls

checked_sum_lem :
    (m : Machine) (total : ℕ) (ls : List ℕ)
    → total ≤ m.usize_max
    → checked_sum m total ls ≡ (
        if leb (total + sum ls) m.usize_max
        then ok (total + sum ls)
        else err (Error.implementation_capacity_exceeded m.usize_max))
unfolding checked_sum sum
checked_sum_lem m total [] h = ground arith
checked_sum_lem m total (l ∷ ls) h = ground (arith, checked_sum_lem m (total + l) ls)

date_len_lem :
    (m : Machine) (version : Version) (n : ℕ)
    → version ≢ empty
    → date_len m version ≡ ok (length (date_bytes version n))
date_len_lem m empty n h = absurd (h refl)
date_len_lem m version1 n h = refl
date_len_lem m version2 n h = refl
date_len_lem m version3 n h = refl

pub length-layout :
    (version : Version) (domain : List ℕ) (n : ℕ) (payload tail : Bytes)
    → length (layout version domain n payload tail)
      ≡ 1
        + length (as_bytes domain)
        + 1
        + length (date_bytes version n)
        + 4
        + length payload
        + length tail
unfolding layout
length-layout version domain n payload tail = simp length-append (omega arith)

counted-ok :
    (m : Machine) (size : ℕ) {r : ℕ}
    → (if leb size m.usize_max
        then ok size
        else err (Error.implementation_capacity_exceeded m.usize_max))
      ≡ ok r
    → (r ≡ size) × (size ≤ m.usize_max)
counted-ok m size h = ground arith

pub filled-ok :
    (m : Machine) (capacity : ℕ) (write : Write) (bytes : Bytes)
    → filled m capacity write ≡ ok bytes
    → (m.can_reserve capacity ≡ true) × (write [] ≡ (ok tt, bytes))
filled-ok m capacity write bytes h = ground arith

module _ (m : Machine) {c : Chrono} (owid : Owid c) (n : ℕ) (wide : IsWide m) where
  payload_fits : IsWritable owid n → ltb (u32_max % (m.usize_max + 1)) (length owid.payload) ≡ false
  payload_fits w =
      let e : u32_max % (m.usize_max + 1) ≡ u32_max = mod-eq_of_lt (omega arith) in
      let h : length owid.payload < 2 ^ 32 = w.sized in rw e (ground arith)

  -- The count is the number of bytes of the format, where `usize` holds it.
  encoded_len_lem :
      IsWritable owid n
      → encoded_len m owid false ≡ (
          let size = length (layout owid.version owid.domain n owid.payload []) in
          if leb size m.usize_max
          then ok size
          else err (Error.implementation_capacity_exceeded m.usize_max))
  unfolding encoded_len sum
  encoded_len_lem w = rw (payload_fits w) (
      rw (date_len_lem m owid.version n w.known)
        (rw (checked_sum_lem m 0 _ (omega arith)) (rw length-layout (ground arith))))

  encoded_len_signed_lem :
      IsEncodable owid n
      → encoded_len m owid true ≡ (
          let size = length (envelope owid n) in
          if leb size m.usize_max
          then ok size
          else err (Error.implementation_capacity_exceeded m.usize_max))
  unfolding encoded_len sum
  encoded_len_signed_lem w = rw (payload_fits w.writable) (
      rw w.signed (
        rw (date_len_lem m owid.version n w.writable.known)
          (rw (checked_sum_lem m 0 _ (omega arith)) (rw length-layout (ground arith)))))

  -- `as_byte_array` returns the bytes of the format, `signed_bytes` all of them but the signature.
  pub as_byte_array_lem :
      IsEncodable owid n
      → length (envelope owid n) ≤ m.usize_max
      → m.can_reserve (length (envelope owid n)) ≡ true
      → as_byte_array m owid ≡ ok (envelope owid n)
  unfolding as_byte_array
  as_byte_array_lem w fits room =
      rw (encoded_len_signed_lem w)
        (rw (le→leb _ _ fits) (rw room (rw (to_buffer_lem owid n [] w))))

  pub signed_bytes_lem :
      IsWritable owid n
      → length (layout owid.version owid.domain n owid.payload []) ≤ m.usize_max
      → m.can_reserve (length (layout owid.version owid.domain n owid.payload [])) ≡ true
      → signed_bytes m owid ≡ ok (layout owid.version owid.domain n owid.payload [])
  unfolding signed_bytes
  signed_bytes_lem w fits room =
      rw (encoded_len_lem w)
        (rw (le→leb _ _ fits) (rw room (rw (to_buffer_no_signature_lem owid n [] w))))

-- On a target of 32 bits or more `as_byte_array` succeeds exactly where the fields fit the format
-- and `usize` and the allocator hold its bytes, and what it returns is the bytes of the format.
pub as_byte_array_iff :
    (m : Machine) {c : Chrono} (owid : Owid c) (bytes : Bytes)
    → IsWide m
    → All IsChar owid.domain
    → (as_byte_array m owid ≡ ok bytes) ↔ (
        (n : ℕ) × IsEncodable owid n
        × (bytes ≡ envelope owid n)
        × (length bytes ≤ m.usize_max)
        × (m.can_reserve (length bytes) ≡ true))
unfolding as_byte_array
as_byte_array_iff m owid bytes wide chars = (
  λ e.
      let (capacity, count, fill) = >>=-eq-ok (encoded_len m owid true) _ e in
      let (room, wrote) = filled-ok m capacity (to_buffer owid) bytes fill in
      let (n, w) = to_buffer-ok owid [] chars (ap (λ t. t.0) wrote) in
      let (size, fits) = counted-ok m _ (sym (encoded_len_signed_lem m owid n wide w) ∙ count) in
      let same : bytes ≡ envelope owid n =
        sym (ap (λ t. t.1) wrote) ∙ ap (λ t. t.1) (to_buffer_lem owid n [] w) in
      (n, w, same, rw same fits, rw (same, ← size) room),
  λ (n, w, same, fits, room).
      rw same (as_byte_array_lem m owid n wide w (rw same at fits) (rw same at room)),
)
