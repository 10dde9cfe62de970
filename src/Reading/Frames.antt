-- ===== src/Reading/Frames.antt =====
-- Reading one frame from the front of a buffer, and a run of frames.
use owid_rust.Prelude.{
  ℕ, zero, suc, ◌≤◌, ◌<◌, ◌≡◌, ◌≢◌, refl, sym, ap, ◌∙◌, List, [], ◌∷◌, ◌++◌, map, Option, none,
  some, Result, ok, err, length, length-append, drop, drop-length, append_assoc, append-nil, All,
  arith,
}
use owid_rust.Text.Utf8.RoundTrip.{IsChar}
use owid_rust.Platform.{Machine, Chrono}
use owid_rust.Error.{ParseError}
use owid_rust.Version.{Version, as_byte, empty, version1, version2, version3}
use owid_rust.Io.{Bytes, Write, proceed, write_byte}
use owid_rust.Owid.{Owid, to_buffer, empty_to_buffer}
use owid_rust.Envelope.{layout, envelope, IsEncodable}
use owid_rust.Envelope.Write.{to_buffer_lem, to_buffer-ok, to_buffer_iff, proceed-ok}
use owid_rust.Parse.{prefix, parse_one, parse_prefix}
use owid_rust.Parse.Steps.{HasRoom}
use owid_rust.Parse.RoundTrip.{parse_one_lem}
use owid_rust.Reading.{read_from_prefix}
use owid_rust.Reading.RoundTrip.{IsEncodable-IsWellFormed, at_count, cut_date}

layout-append :
    {c : Chrono} (owid : Owid c) (n : ℕ) (rest : Bytes)
    → envelope owid n ++ rest
      ≡ layout owid.version owid.domain n owid.payload (owid.signature ++ rest)
unfolding layout
layout-append owid n rest = simp append_assoc

module _ (m : Machine) (c : Chrono) where
  -- A frame that starts with a version other than the marker's is read by `parse_one`.
  parse_prefix-frame :
      (version : Version) (rest : Bytes) (owid : Owid c) (used : ℕ)
      → version ≢ empty
      → parse_one m c (as_byte version ∷ rest) prefix ≡ ok (owid, used)
      → parse_prefix m c (as_byte version ∷ rest)
        ≡ ok (some owid, drop used (as_byte version ∷ rest))
  unfolding parse_prefix as_byte
  parse_prefix-frame empty rest owid used known h = absurd (known refl)
  parse_prefix-frame version1 rest owid used known h = rw h
  parse_prefix-frame version2 rest owid used known h = rw h
  parse_prefix-frame version3 rest owid used known h = rw h

  pub read_from_prefix-envelope :
      (owid : Owid c) (n : ℕ) (rest : Bytes)
      → IsEncodable owid n
      → HasRoom m (length owid.payload)
      → read_from_prefix m c (envelope owid n ++ rest) ≡ ok (some (at_count owid n), rest)
  unfolding read_from_prefix
  read_from_prefix-envelope owid n rest w room =
      let read =
        parse_one_lem m c owid.version owid.domain n owid.payload owid.signature
          (IsEncodable-IsWellFormed owid n w) prefix rest tt room in
      rw layout-append (
        unfold layout in
        parse_prefix-frame owid.version _ (at_count owid n) _ w.writable.known read
        ∙ ap (λ t. ok (some (at_count owid n), t))
            (rw (← layout-append owid n rest) (drop-length (envelope owid n) rest _ refl)))

  -- A frame that was written ends where its reader stops, so the next frame can be read. What
  -- `to_buffer` appended to a buffer is read, whatever follows it, as the same OWID, its date cut
  -- to the hours or minutes of its version, and what follows is handed back.
  pub read_from_prefix-to_buffer :
      (owid : Owid c) (buffer out rest : Bytes)
      → All IsChar owid.domain
      → to_buffer owid buffer ≡ (ok tt, out)
      → HasRoom m (length owid.payload)
      → read_from_prefix m c (drop (length buffer) out ++ rest) ≡ ok (some (cut_date owid), rest)
  read_from_prefix-to_buffer owid buffer out rest chars h room =
      let (n, w, same) = (to_buffer_iff owid buffer out chars).0 h in
      rw w.writable.dated (
        rw same (
          rw (drop-length buffer (envelope owid n) _ refl)
            (read_from_prefix-envelope owid n rest w room)))

  -- A frame of a run: an OWID, or the marker for a node that is not there.
  abbrev pub Frame : Type 0
  Frame = Option (Owid c)

  abbrev write_frame : Frame → Write
  write_frame none buffer = (ok tt, empty_to_buffer buffer)
  write_frame (some owid) buffer = to_buffer owid buffer

  unfoldable pub write_frames : List Frame → Write
  write_frames [] buffer = (ok tt, buffer)
  write_frames (f ∷ fs) buffer =
      proceed (write_frame f buffer).0 (write_frames fs) (write_frame f buffer).1

  -- The loop `while !rest.is_empty()` that the documentation of `read_from_prefix` gives, on fuel:
  -- none when the fuel runs out.
  pub read_frames : ℕ → Bytes → Option (Result (List Frame) ParseError)
  read_frames fuel [] = some (ok [])
  read_frames zero (b ∷ bs) = none
  read_frames (suc fuel) (b ∷ bs) = elim (read_from_prefix m c (b ∷ bs)) [
    | err e ↦ some (err e)
    | ok (frame, rest) ↦ elim (read_frames fuel rest) [
      | none ↦ none
      | some (err e) ↦ some (err e)
      | some (ok frames) ↦ some (ok (frame ∷ frames))
    ]
  ]

  abbrev pub CanRead : Frame → Type 0
  CanRead none = Unit
  CanRead (some owid) = All IsChar owid.domain × HasRoom m (length owid.payload)

  abbrev pub cut_frame : Frame → Frame
  cut_frame none = none
  cut_frame (some owid) = some (cut_date owid)

  -- One frame of the run: the bytes it adds, and that they are read back whatever follows.
  record Written (f : Frame) (buffer : Bytes) : Type 0 where
    bytes : Bytes
    wrote : write_frame f buffer ≡ (ok tt, buffer ++ bytes)
    some_bytes : 0 < length bytes
    reads : (rest : Bytes) → read_from_prefix m c (bytes ++ rest) ≡ ok (cut_frame f, rest)

  write_frame-Written :
      (f : Frame) (buffer : Bytes) → CanRead f → (write_frame f buffer).0 ≡ ok tt → Written f buffer
  unfolding empty_to_buffer write_byte
  write_frame-Written none buffer can h = record {
    bytes = 0 ∷ [];
    wrote = unfold as_byte in refl;
    some_bytes = omega arith;
    reads = λ rest. unfold read_from_prefix parse_prefix as_byte in refl;
  }
  write_frame-Written (some owid) buffer (chars, room) h =
      let (n, w) = to_buffer-ok owid buffer chars h in
      record {
        bytes = envelope owid n;
        wrote = to_buffer_lem owid n buffer w;
        some_bytes = unfold layout in omega arith;
        reads = λ rest. rw w.writable.dated (read_from_prefix-envelope owid n rest w room);
      }

  read_frames_step :
      (fuel : ℕ) (bytes rest : Bytes) (frame : Frame) (frames : List Frame)
      → 0 < length bytes
      → read_from_prefix m c (bytes ++ rest) ≡ ok (frame, rest)
      → read_frames fuel rest ≡ some (ok frames)
      → read_frames (suc fuel) (bytes ++ rest) ≡ some (ok (frame ∷ frames))
  unfolding read_frames
  read_frames_step fuel [] rest frame frames nonempty h k = absurd (omega arith)
  read_frames_step fuel (b ∷ bs) rest frame frames nonempty h k = ground (arith, h, k)

  read_frames-nil : (fuel : ℕ) → read_frames fuel [] ≡ some (ok [])
  unfolding read_frames
  read_frames-nil fuel = refl

  reads_more :
      {f : Frame} {buffer : Bytes} (one : Written f buffer) (bytes : Bytes) (frames : List Frame)
      → ((fuel : ℕ) → length bytes ≤ fuel → read_frames fuel bytes ≡ some (ok frames))
      → (fuel : ℕ) → length (one.bytes ++ bytes) ≤ fuel
      → read_frames fuel (one.bytes ++ bytes) ≡ some (ok (cut_frame f ∷ frames))
  reads_more one bytes frames reads zero le =
      absurd (omega (arith, length-append one.bytes bytes, one.some_bytes))
  reads_more one bytes frames reads (suc fuel) le =
      read_frames_step fuel one.bytes bytes _ frames one.some_bytes (one.reads bytes)
        (reads fuel (omega (arith, length-append one.bytes bytes, one.some_bytes)))

  write_frames-Written :
      (fs : List Frame) (buffer : Bytes)
      → All CanRead fs
      → (write_frames fs buffer).0 ≡ ok tt
      → (bytes : Bytes) × (write_frames fs buffer ≡ (ok tt, buffer ++ bytes))
        × ((fuel : ℕ) → length bytes ≤ fuel → read_frames fuel bytes ≡ some (ok (map cut_frame fs)))
  unfolding write_frames
  write_frames-Written [] buffer can h = ([], rw append-nil, λ fuel le. read_frames-nil fuel)
  write_frames-Written (f ∷ fs) buffer (can, cans) h =
      let (first, others) = proceed-ok (write_frame f buffer).0 _ _ h in
      let one = write_frame-Written f buffer can first in
      let (bytes, wrote, reads) =
        write_frames-Written fs (buffer ++ one.bytes) cans (rw one.wrote at others) in
      (
        one.bytes ++ bytes,
        rw one.wrote (rw wrote (rw append_assoc)),
        reads_more one bytes (map cut_frame fs) reads,
      )

  -- A run of frames, each an OWID or a marker, is read back frame by frame to its end, with as many
  -- rounds as there are bytes, each OWID with its date cut to the hours or minutes of its version.
  pub read_frames-write_frames :
      (fs : List Frame) (bytes : Bytes)
      → All CanRead fs
      → write_frames fs [] ≡ (ok tt, bytes)
      → read_frames (length bytes) bytes ≡ some (ok (map cut_frame fs))
  read_frames-write_frames fs bytes can h =
      let (more, wrote, reads) = write_frames-Written fs [] can (ap (λ t. t.0) h) in
      let same : bytes ≡ more = sym (ap (λ t. t.1) h) ∙ ap (λ t. t.1) wrote in
      rw same (reads (length more) (omega arith))
