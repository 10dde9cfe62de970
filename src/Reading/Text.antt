-- ===== src/Reading/Text.antt =====
-- The base 64 form.
use owid_rust.Prelude.{
  ℕ, ◌<◌, ◌≡◌, ◌≢◌, refl, ◌∙◌, [], ◌∷◌, true, some, ok, >>=-eq-ok, length, All, All-append, arith,
}
use owid_rust.Text.{Str}
use owid_rust.Text.Utf8.RoundTrip.{IsByte, IsChar, as_bytes-IsByte}
use owid_rust.Text.Utf8.{as_bytes}
use owid_rust.Platform.{Machine, Chrono}
use owid_rust.Version.{Version, as_byte, empty, version1, version2, version3}
use owid_rust.Io.{Bytes, to_le_bytes}
use owid_rust.Owid.{Owid, as_byte_array}
use owid_rust.Envelope.{layout, envelope, date_bytes, IsEncodable}
use owid_rust.Envelope.Capacity.{IsWide, as_byte_array_iff}
use owid_rust.Reading.{Base64, IsBase64, from_byte_array, from_base64, as_base64}
use owid_rust.Reading.RoundTrip.{cut_date, from_byte_array-as_byte_array}

as_byte-IsByte : (version : Version) → as_byte version < 256
unfolding as_byte
as_byte-IsByte empty = omega arith
as_byte-IsByte version1 = omega arith
as_byte-IsByte version2 = omega arith
as_byte-IsByte version3 = omega arith

date_bytes-IsByte : (version : Version) (n : ℕ) → All IsByte (date_bytes version n)
date_bytes-IsByte empty n = omega arith
date_bytes-IsByte version1 n = omega arith
date_bytes-IsByte version2 n = omega arith
date_bytes-IsByte version3 n = omega arith

to_le_bytes-IsByte : (n : ℕ) → All IsByte (to_le_bytes n)
to_le_bytes-IsByte n = omega arith

envelope-IsByte :
    {c : Chrono} (owid : Owid c) (n : ℕ)
    → IsEncodable owid n
    → All IsByte owid.payload
    → All IsByte owid.signature
    → All IsByte (envelope owid n)
unfolding layout
envelope-IsByte owid n w payload signature = (
  as_byte-IsByte owid.version,
  All-append IsByte (as_bytes owid.domain) _ (as_bytes-IsByte owid.domain w.writable.chars) (
    omega arith,
    All-append IsByte (date_bytes owid.version n) _ (date_bytes-IsByte owid.version n) (
        All-append IsByte (to_le_bytes (length owid.payload)) _
          (to_le_bytes-IsByte (length owid.payload))
          (All-append IsByte owid.payload _ payload signature)),
  ),
)

from_base64-some :
    (m : Machine) (c : Chrono) (b : Base64) (value : Str) (bytes : Bytes)
    → value ≢ []
    → b.decode value ≡ some bytes
    → from_base64 m c b value ≡ from_byte_array m c bytes
unfolding from_base64
from_base64-some m c b [] bytes nonempty h = absurd (nonempty refl)
from_base64-some m c b (ch ∷ value) bytes nonempty h = rw h

-- The base 64 text of an OWID is read back as the same OWID, its date cut to the hours or minutes of
-- its version, where the payload can be reserved.
pub from_base64-as_base64 :
    (m : Machine) (c : Chrono) (b : Base64) (laws : IsBase64 b) (owid : Owid c) (value : Str)
    → IsWide m
    → All IsChar owid.domain
    → All IsByte owid.payload
    → All IsByte owid.signature
    → as_base64 m b owid ≡ ok value
    → m.can_reserve (length owid.payload) ≡ true
    → from_base64 m c b value ≡ ok (cut_date owid)
unfolding as_base64
from_base64-as_base64 m c b laws owid value wide chars payload signature h room =
    let (bytes, wrote, done) = >>=-eq-ok (as_byte_array m owid) _ h in
    let (n, w, same, fits, reserved) = (as_byte_array_iff m owid bytes wide chars).0 wrote in
    let encoded : b.encode bytes ≡ value = ground (arith, done) in
    let are_bytes : All IsByte bytes = rw same (envelope-IsByte owid n w payload signature) in
    let nonempty : value ≢ [] =
      λ e. unfold layout in cc (same, laws.encode-nil bytes (encoded ∙ e)) in
    from_base64-some m c b value bytes nonempty (rw encoded at (laws.decode-encode bytes are_bytes))
    ∙ from_byte_array-as_byte_array m c owid bytes wide chars wrote room
