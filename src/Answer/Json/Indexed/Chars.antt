-- ===== src/Answer/Json/Indexed/Chars.antt =====
-- The loop of `read_string` by index, with the text read so far, against the model's.
use owid_rust.Prelude.{
  ℕ, zero, suc, List, ◌+◌, ◌≤◌, ◌<◌, ◌≡◌, refl, sym, [], ◌∷◌, ◌++◌, append_assoc, append-nil,
  lt→ltb, ge→ltb, Option, none, some, ok, err, length, leb, ◌==◌, ◌&&◌, arith, inl, inr, Bool-cases,
}
use owid_rust.Text.{Str}
use owid_rust.Platform.{Machine}
use owid_rust.Panics.{value, bind, returns}
use owid_rust.Panics.InRange.{slice_lem}
use owid_rust.Answer.Json.{
  Reads, not_json, push, push_escape, push_code, code_of, unescape, read_chars, read_escape,
  read_code, read_string,
}
use owid_rust.Answer.Json.Indexed.{
  walk_chars, escape_round, push_round, code_round, char_of, walk_string, Loop,
}
use owid_rust.Answer.Json.Indexed.Steps.{
  IsVec, At, Tracks, length-At, get_elem?-At, get_elem?-At-end, At-some, At-next, index-At, inside,
  outside, add-At,
}

abbrev pub prepend : {A : Type 0} → List A → Reads (List A) → Reads (List A)
prepend read (ok (value, s)) = ok (read ++ value, s)
prepend read (err e) = err e

prepend-push :
    (read : Str) (c : ℕ) (r : Reads Str) → prepend (read ++ c ∷ []) r ≡ prepend read (push c r)
prepend-push read c (ok (value, s)) = rw append_assoc
prepend-push read c (err e) = refl

pub prepend-none : {A : Type 0} (r : Reads (List A)) → prepend [] r ≡ r
prepend-none (ok (value, s)) = refl
prepend-none (err e) = refl

module _ (m : Machine) (chars : Str) (v : IsVec m chars) where
  -- A loop that comes to what the model's does on texts of fewer than so many characters.
  abbrev Follows : ℕ → Loop m chars → Type 0
  Follows n more =
      (read : Str) (at : ℕ) (s : Str)
      → At chars at s
      → length s < n
      → Tracks chars (more read at) (prepend read (read_chars s))

  Follows-push :
      (n c : ℕ) (more : Loop m chars) (read : Str) (at : ℕ) (s : Str)
      → Follows n more
      → At chars at s
      → length s < n
      → Tracks chars (more (read ++ c ∷ []) at) (prepend read (push c (read_chars s)))
  Follows-push n c more read at s f h lt =
      rw (← prepend-push read c (read_chars s)) (f (read ++ c ∷ []) at s h lt)

  code_round-short :
      (n : ℕ) (more : Loop m chars) (read : Str) (at : ℕ) (s : Str)
      → At chars at s
      → length s < 4
      → Tracks chars (code_round m chars more read at) (err not_json)
  code_round-short n more read at s h short =
      let size = length-At chars at s h in
      rw (add-At m chars v at 4 s (omega arith) h)
        (rw (lt→ltb (length chars) (at + 4) (omega (arith, size, h.within))) refl)

  push_code_lem :
      (n : ℕ) (o : Option ℕ) (more : Loop m chars) (read : Str) (next : ℕ) (s : Str)
      → Follows n more
      → At chars next s
      → length s < n
      → Tracks chars
          (bind (returns (char_of o)) λ c. more (read ++ c ∷ []) next)
          (prepend read (push_code o (read_chars s)))
  push_code_lem n none more read next s f h lt = refl
  push_code_lem n (some c) more read next s f h lt =
      elim (Bool-cases (leb 0xd800 c && leb c 0xdfff)) [
        | inl surrogate ↦ rw surrogate refl
        | inr char ↦ rw char (Follows-push n c more read next s f h lt)
      ]

  code_round_lem :
      (n : ℕ) (more : Loop m chars) (read : Str) (at : ℕ) (s : Str)
      → Follows n more
      → At chars at s
      → length s ≤ n
      → Tracks chars (code_round m chars more read at) (prepend read (read_code s))
  unfolding read_code
  code_round_lem n more read at [] f h le = code_round-short n more read at [] h (omega arith)
  code_round_lem n more read at (a ∷ []) f h le =
      code_round-short n more read at (a ∷ []) h (omega arith)
  code_round_lem n more read at (a ∷ b ∷ []) f h le =
      code_round-short n more read at (a ∷ b ∷ []) h (omega arith)
  code_round_lem n more read at (a ∷ b ∷ c ∷ []) f h le =
      code_round-short n more read at (a ∷ b ∷ c ∷ []) h (omega arith)
  code_round_lem n more read at (a ∷ b ∷ c ∷ d ∷ s) f h le =
      let size = length-At chars at (a ∷ b ∷ c ∷ d ∷ s) h in
      let there : at + 4 ≤ length chars = omega (arith, size, h.within) in
      let next = At-some chars at 4 (a ∷ b ∷ c ∷ d ∷ s) (omega arith) h in
      rw (add-At m chars v at 4 (a ∷ b ∷ c ∷ d ∷ s) (omega arith) h) (
        rw (ge→ltb (length chars) (at + 4) there) (
          rw (slice_lem chars at 4 there) (
            rw h.left
              (push_code_lem n (code_of a b c d) more read (at + 4) s f next (omega arith)))))

  push_round_lem :
      (n : ℕ) (more : Loop m chars) (o : Option ℕ) (read : Str) (at : ℕ) (s : Str)
      → Follows n more
      → At chars at s
      → length s < n
      → Tracks chars
          (push_round m chars more o read at)
          (prepend read (push_escape o (read_chars s)))
  push_round_lem n more none read at s f h lt = refl
  push_round_lem n more (some c) read at s f h lt = Follows-push n c more read at s f h lt

  escape_round_lem :
      (n : ℕ) (more : Loop m chars) (read : Str) (at : ℕ) (s : Str)
      → Follows n more
      → At chars at s
      → length s ≤ n
      → Tracks chars (escape_round m chars more read at) (prepend read (read_escape s))
  unfolding read_escape
  escape_round_lem n more read at [] f h le = rw (get_elem?-At-end chars at h) refl
  escape_round_lem n more read at (e ∷ s) f h le = rw (get_elem?-At chars at e s h) (
      rw (add-At m chars v at 1 (e ∷ s) (omega arith) h) (elim (Bool-cases (e == b'u')) [
        | inl code ↦
            rw code (code_round_lem n more read (at + 1) s f (At-next chars at e s h) (omega arith))
        | inr other ↦ rw other (
            push_round_lem n more (unescape e) read (at + 1) s f (At-next chars at e s h)
              (omega arith))
      ]))

  walk_chars-Follows : (rounds : ℕ) → Follows rounds (walk_chars m chars rounds)
  unfolding walk_chars read_chars
  walk_chars-Follows zero read at s h lt = absurd (omega arith)
  walk_chars-Follows (suc rounds) read at [] h lt = rw (outside chars at h) refl
  walk_chars-Follows (suc rounds) read at (c ∷ s) h lt = rw (inside chars at c s h) (
      rw (index-At chars at c s h) (
        rw (add-At m chars v at 1 (c ∷ s) (omega arith) h) (elim (Bool-cases (c == b'"')) [
          | inl quote ↦ rw quote (sym (append-nil read), At-next chars at c s h)
          | inr other ↦ rw other (elim (Bool-cases (c == b'\\')) [
            | inl escape ↦ rw escape (
                escape_round_lem rounds (walk_chars m chars rounds) read (at + 1) s
                  (walk_chars-Follows rounds) (At-next chars at c s h) (omega arith))
            | inr plain ↦ rw plain (
                Follows-push rounds c (walk_chars m chars rounds) read (at + 1) s
                  (walk_chars-Follows rounds) (At-next chars at c s h) (omega arith))
          ])
        ])))

  pub walk_string_lem :
      (at : ℕ) (s : Str) → At chars at s → Tracks chars (walk_string m chars at) (read_string s)
  unfolding walk_string read_string
  walk_string_lem at [] h = rw (get_elem?-At-end chars at h) refl
  walk_string_lem at (c ∷ s) h = elim (Bool-cases (c == b'"')) [
    | inr other ↦ rw (get_elem?-At chars at c s h) (rw other refl)
    | inl quote ↦ rw (get_elem?-At chars at c s h) (
        rw quote (
          rw (add-At m chars v at 1 (c ∷ s) (omega arith) h) (
            rw (← prepend-none (read_chars s)) (
              walk_chars-Follows (suc (length chars)) [] (at + 1) s (At-next chars at c s h)
                (omega (arith, length-At chars at (c ∷ s) h))))))
  ]
