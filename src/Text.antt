-- ===== src/Text.antt =====
-- Rust's `str` and `String`: a text is the list of its characters, each a Unicode scalar value.
pub mod Utf8
pub mod Same
pub mod Decimal
use Prim.Native.Char.{code}
use owid_rust.Prelude.{ℕ, String, List, [], ◌∷◌, Bool, ◌&&◌, ◌||◌, leb, ltb, ◌==◌, if◌then◌else◌}

abbrev pub Str : Type 0
Str = List ℕ

-- A literal of the source, as a text.
abbrev pub text : String → Str
text String.[] = []
text (String.◌∷◌ c s) = code c ∷ text s

-- `char::is_whitespace`: the code points with the Unicode property White_Space.
unfoldable pub is_whitespace : ℕ → Bool
is_whitespace c =
    (leb 9 c && leb c 13)
    || c == 32
    || c == 0x85
    || c == 0xa0
    || c == 0x1680
    || (leb 0x2000 c && leb c 0x200a)
    || c == 0x2028
    || c == 0x2029
    || c == 0x202f
    || c == 0x205f
    || c == 0x3000
