-- ===== src/Tests/Format.antt =====
-- The format, written and read: the theorems at the sample, and some runs.
use owid_rust.Prelude.{
  ℕ, ◌-◌, ◌^◌, ◌≡◌, ◌≢◌, ◌↔◌, ◌≤◌, leb, refl, List, [], ◌∷◌, ◌++◌, true, none, some, ok, length,
  All, take, map, drop, arith,
}
use owid_rust.Prelude.Int.{pos}
use owid_rust.Text.Utf8.{as_bytes, encode_char, from_utf8}
use owid_rust.Text.Utf8.RoundTrip.{IsByte}
use owid_rust.Platform.{Machine}
use owid_rust.Error.{ParseError, ParseStatus, ParseDetail, fail_with}
use owid_rust.Version.{version3, as_byte, try_from}
use owid_rust.Io.{Bytes, write_byte}
use owid_rust.Owid.{Owid, to_buffer, empty_to_buffer, as_byte_array}
use owid_rust.Envelope.{layout, envelope, IsEncodable}
use owid_rust.Envelope.Write.{to_buffer_iff, to_buffer_lem}
use owid_rust.Envelope.Capacity.{as_byte_array_iff, as_byte_array_lem}
use owid_rust.Parse.{
  prefix, whole_buffer, parse_one, read_domain, read_date, read_rest, date_length, from_le_bytes,
  parse_exact, parse_prefix,
}
use owid_rust.Parse.Steps.{HasRoom}
use owid_rust.Parse.Errors.{parse_one-SameUpto, parse_one-trailing, parse_one-ne-malformed, Avoids}
use owid_rust.Parse.Indexed.{walk_exact, walk_prefix}
use owid_rust.Panics.{returns, value, panics, slice_from, index}
use owid_rust.Panics.InRange.{IsSlice}
use owid_rust.Parse.Indexed.Safe.{walk_exact-walk_prefix}
use owid_rust.Reading.{
  Base64, IsBase64, from_byte_array, read_from_prefix, from_base64, as_base64, of_frame,
}
use owid_rust.Reading.RoundTrip.{
  cut_date, at_count, IsEncodable-IsWellFormed, from_byte_array-as_byte_array,
  as_byte_array-from_byte_array,
}
use owid_rust.Reading.Frames.{write_frames, read_frames, Frame, cut_frame, read_frames-write_frames}
use owid_rust.Reading.Arriving.{
  with_more, read_from_prefix-append, read_from_prefix-truncated, from_byte_array-read_from_prefix,
}
use owid_rust.Reading.Text.{from_base64-as_base64}
use owid_rust.Tests.Sample.{machine, clock, clock-IsChrono, sample, sample-IsEncodable}

-- the sample as it is read, without the seconds
abbrev sample_read : Owid clock
sample_read = at_count sample 5

sample_written : as_byte_array machine sample ≡ ok (envelope sample 5)
unfolding layout as_bytes encode_char
sample_written =
    as_byte_array_lem machine sample 5 (omega arith) sample-IsEncodable (omega arith) refl

sample_run : from_byte_array machine clock (envelope sample 5) ≡ ok sample_read
unfolding from_byte_array parse_exact parse_one layout as_byte as_bytes encode_char try_from
    read_domain read_date read_rest from_utf8 date_length from_le_bytes
sample_run = refl

sample_bytes : All IsByte (envelope sample 5)
unfolding layout as_byte as_bytes encode_char
sample_bytes = omega arith

sample_room : HasRoom machine 2
sample_room = record { addressable = omega arith; reserved = refl }

to_buffer_iff_example :
    (to_buffer sample (9 ∷ []) ≡ (ok tt, 9 ∷ envelope sample 5))
    ↔ ((n : ℕ) × IsEncodable sample n × (9 ∷ envelope sample 5 ≡ (9 ∷ []) ++ envelope sample n))
to_buffer_iff_example = to_buffer_iff sample (9 ∷ []) (9 ∷ envelope sample 5) (omega arith)

as_byte_array_iff_example : (as_byte_array machine sample ≡ ok (envelope sample 5)) ↔ (
    (n : ℕ) × IsEncodable sample n
    × (envelope sample 5 ≡ envelope sample n)
    × (length (envelope sample 5) ≤ machine.usize_max)
    × (machine.can_reserve (length (envelope sample 5)) ≡ true))
as_byte_array_iff_example =
    as_byte_array_iff machine sample (envelope sample 5) (omega arith) (omega arith)

from_byte_array-as_byte_array_example :
    from_byte_array machine clock (envelope sample 5) ≡ ok (cut_date sample)
from_byte_array-as_byte_array_example =
    from_byte_array-as_byte_array machine clock sample (envelope sample 5) (omega arith)
      (omega arith) sample_written refl

as_byte_array-from_byte_array_example : as_byte_array machine sample_read ≡ ok (envelope sample 5)
unfolding layout as_bytes encode_char
as_byte_array-from_byte_array_example =
    as_byte_array-from_byte_array machine clock clock-IsChrono (envelope sample 5) sample_read
      (omega arith) sample_bytes (omega arith) refl sample_run

-- An absent node, the sample, and an absent node.
abbrev three_frames : List (Frame machine clock)
three_frames = none ∷ some sample ∷ none ∷ []

three_frames_written :
    write_frames machine clock three_frames [] ≡ (ok tt, 0 ∷ (envelope sample 5 ++ 0 ∷ []))
unfolding write_frames empty_to_buffer write_byte as_byte
three_frames_written = rw (to_buffer_lem sample 5 (0 ∷ []) sample-IsEncodable)

read_frames-write_frames_example :
    read_frames machine clock
      (length (0 ∷ (envelope sample 5 ++ 0 ∷ [])))
      (0 ∷ (envelope sample 5 ++ 0 ∷ []))
    ≡ some (ok (map (cut_frame machine clock) three_frames))
read_frames-write_frames_example =
    read_frames-write_frames machine clock three_frames (0 ∷ (envelope sample 5 ++ 0 ∷ []))
      (tt, ((omega arith, sample_room), (tt, tt))) three_frames_written

marker_is_final : of_frame (read_from_prefix machine clock (0 ∷ [])) ≢ ParseStatus.unexpected_end
unfolding of_frame read_from_prefix parse_prefix as_byte
marker_is_final = ground arith

read_from_prefix-append_example :
    read_from_prefix machine clock (0 ∷ 3 ∷ [])
    ≡ with_more (3 ∷ []) (read_from_prefix machine clock (0 ∷ []))
read_from_prefix-append_example =
    read_from_prefix-append machine clock 0 [] (3 ∷ []) (omega arith) marker_is_final

-- the sample cut after eight bytes, inside the date
read_from_prefix-truncated_example :
    of_frame (read_from_prefix machine clock (3 ∷ take 7 (drop 1 (envelope sample 5))))
    ≡ ParseStatus.unexpected_end
unfolding layout as_byte as_bytes encode_char
read_from_prefix-truncated_example =
    read_from_prefix-truncated machine clock sample 5 3 (take 7 (drop 1 (envelope sample 5)))
      (drop 8 (envelope sample 5)) sample-IsEncodable sample_room (omega arith) (omega arith) refl

from_byte_array-read_from_prefix_example :
    (from_byte_array machine clock (envelope sample 5) ≡ ok sample_read)
    ↔ (read_from_prefix machine clock (envelope sample 5) ≡ ok (some sample_read, []))
from_byte_array-read_from_prefix_example =
    from_byte_array-read_from_prefix machine clock (envelope sample 5) sample_read sample_bytes

abbrev small : Machine
small = record { usize_max = 2 ^ 32 - 1; can_reserve = λ n. leb n 100 }

-- A declared payload of four billion bytes that was not sent.
abbrev overclaimed : Bytes
overclaimed = 3 ∷ 0 ∷ 0 ∷ 0 ∷ 0 ∷ 0 ∷ 255 ∷ 255 ∷ 255 ∷ 255 ∷ []

overclaimed-IsSlice : IsSlice machine overclaimed
overclaimed-IsSlice = record { width = omega arith; held = omega arith }

walk_exact-walk_prefix_example :
    (walk_exact machine clock overclaimed ≡ returns (parse_exact machine clock overclaimed))
    × (walk_prefix machine clock overclaimed ≡ returns (parse_prefix machine clock overclaimed))
walk_exact-walk_prefix_example =
    walk_exact-walk_prefix machine clock overclaimed overclaimed-IsSlice

-- The slice from the end on is empty, and there is no byte at the end.
slices :
    (slice_from {E = ParseError} overclaimed 10 ≡ value [])
    × (index {E = ParseError} overclaimed 10 ≡ panics)
slices = (refl, refl)

parse_one-SameUpto_example :
    parse_one machine clock overclaimed prefix ≡ parse_one small clock overclaimed prefix
parse_one-SameUpto_example =
    parse_one-SameUpto machine small clock overclaimed prefix (λ n le. (ground arith, ground arith))

parse_one-trailing_example :
    parse_one machine clock
      (layout version3 sample.domain 5 sample.payload (sample.signature ++ 0 ∷ []))
      whole_buffer
    ≡ fail_with ParseStatus.byte_count_mismatch (ParseDetail.byte_counts 2 (pos 3))
parse_one-trailing_example =
    parse_one-trailing machine clock version3 sample.domain 5 sample.payload sample.signature 0 []
      (IsEncodable-IsWellFormed sample 5 sample-IsEncodable)

parse_one-ne-malformed_example :
    Avoids ParseStatus.malformed_envelope (parse_one machine clock overclaimed whole_buffer)
parse_one-ne-malformed_example = parse_one-ne-malformed machine clock overclaimed whole_buffer

-- A base 64 engine that writes each byte as one character: enough for the laws.
abbrev letters : Base64
letters = record { encode = λ bytes. bytes; decode = some }

letters-IsBase64 : IsBase64 letters
letters-IsBase64 = record { decode-encode = λ bytes h. refl; encode-nil = λ bytes h. h }

sample_text : as_base64 machine letters sample ≡ ok (envelope sample 5)
unfolding as_base64
sample_text = rw sample_written

from_base64-as_base64_example :
    from_base64 machine clock letters (envelope sample 5) ≡ ok (cut_date sample)
from_base64-as_base64_example =
    from_base64-as_base64 machine clock letters letters-IsBase64 sample (envelope sample 5)
      (omega arith) (omega arith) (omega arith) (omega arith) sample_text refl
