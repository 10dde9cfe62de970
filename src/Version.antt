-- ===== src/Version.antt =====
-- version.rs: the version byte of an OWID.
use owid_rust.Prelude.{ℕ, ◌==◌, if◌then◌else◌, Result, ok, err}
use owid_rust.Error.{Error, unsupported_version}

pub data Version : Type 0 where
  empty version1 version2 version3 : Version

-- `Version::default()`
abbrev pub default : Version
default = version3

unfoldable pub as_byte : Version → ℕ
as_byte empty = 0
as_byte version1 = 1
as_byte version2 = 2
as_byte version3 = 3

unfoldable pub try_from : ℕ → Result Version Error
try_from value =
    if value == 0
    then ok empty
    else if value == 1
    then ok version1
    else if value == 2
    then ok version2
    else if value == 3
    then ok version3
    else err (unsupported_version value)
