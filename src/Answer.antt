-- ===== src/Answer.antt =====
-- key_answer.rs: the answer to a request for a key, and the check that a creator makes before it
-- sends one and a client when it has read one.
pub mod Scheduled
pub mod Write
pub mod Json
use owid_rust.Prelude.{
  Bool, true, false, Option, none, some, Result, ok, err, ◌>>=◌, not, if◌then◌else◌,
}
use owid_rust.Text.{Str, text}
use owid_rust.Text.Same.{same}
use owid_rust.Platform.{Chrono, P256}
use owid_rust.Error.{Error}
use owid_rust.Crypto.{Crypto, is_blank, new_verify_only}

abbrev pub spki_format : Str
spki_format = text "spki"

pub record PublicKeyAnswer (c : Chrono) : Type 0 where
  pub format : Str
  pub public_key : Str
  pub valid_from : Option c.DateTime
  pub valid_to : Option c.DateTime

infixl 5 ◌>>◌
abbrev pub ◌>>◌ : Result (Unit {0}) Error → Result (Unit {0}) Error → Result (Unit {0}) Error
first >> next = first >>= λ _. next

module _ (c : Chrono) where
  unfoldable pub new : Str → Option c.DateTime → Option c.DateTime → PublicKeyAnswer c
  new public_key valid_from valid_to = record {
    format = spki_format;
    public_key = public_key;
    valid_from = valid_from;
    valid_to = valid_to;
  }

  abbrev pub check : Bool → Str → Result (Unit {0}) Error
  check true message = ok tt
  check false message = err (Error.key message)

  abbrev pub check_order : Option c.DateTime → Option c.DateTime → Result (Unit {0}) Error
  check_order from none = ok tt
  check_order none (some to) =
      err
        (Error.key (text "the public key answer states when the key ends but not when it started"))
  check_order (some from) (some to) =
      check (not (c.before to from))
        (text "the public key answer states a key that ends before it starts")

  abbrev pub check_started : Option c.DateTime → c.DateTime → Result (Unit {0}) Error
  check_started none asked = ok tt
  check_started (some from) asked =
      check (c.before from asked)
        (text "the public key answer states a key that had not started at the moment asked about")

  abbrev pub check_ended : Option c.DateTime → c.DateTime → Result (Unit {0}) Error
  check_ended none asked = ok tt
  check_ended (some to) asked =
      check (not (c.before to asked))
        (text "the public key answer states a key that had ended at the moment asked about")

  abbrev pub check_asked :
      Option c.DateTime → Option c.DateTime → Option c.DateTime → Result (Unit {0}) Error
  check_asked from to none = ok tt
  check_asked from to (some asked) = do check_started from asked; check_ended to asked

abbrev pub check_key : (p : P256) → Result (Crypto p) Error → Result (Unit {0}) Error
check_key p (ok crypto) = ok tt
check_key p (err e) = err (Error.key (text "the public key answer holds a key that cannot be read"))

module _ (p : P256) {c : Chrono} where
  unfoldable pub validate : PublicKeyAnswer c → Option c.DateTime → Result (Unit {0}) Error
  validate answer asked = do
    check c (same answer.format spki_format)
        (text "the public key answer states a format this crate does not read")
    check c (not (is_blank answer.public_key)) (text "the public key answer holds no key")
    check_key p (new_verify_only p answer.public_key)
    check_order c answer.valid_from answer.valid_to
    check_asked c answer.valid_from answer.valid_to asked
