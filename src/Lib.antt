-- ===== src/Lib.antt =====
-- OWID (Open Web Id) in Rust: a model of the crate's sources (src/*.rs of the repository) and the
-- theorems about it.
--
-- An OWID is a version, a creator domain, a date, a payload and a signature. The crate writes it as
-- bytes (io.rs, owid.rs), reads it from bytes that come from outside (parse.rs), and names why a
-- read failed (status.rs, error.rs). A creator signs it (crypto.rs, creator.rs), publishes a schedule
-- of keys (schedule.rs), and a verifier fetches the key and holds it in a cache (fetch.rs).
--
-- Which file models what:
--   Version, Error, Status: version.rs, error.rs, and the enumerations of status.rs and parse.rs.
--   Io: io.rs. A write (`write_byte`, `write_domain`, `write_date`, ..) takes the buffer and returns
--     it beside the result, since what was written before an error stays in the buffer.
--   Owid: the structure of owid.rs and how it is written (`to_buffer`, `encoded_len`,
--     `as_byte_array`, `signed_bytes`).
--   Parse: parse.rs. `parse_one` walks the buffer by index as the code does, `Extent` says whether the
--     envelope is the whole buffer. `read_rest` is the part of `parse_one` from the payload length
--     on. Indices past the end would panic in Rust; the model's `drop` returns no bytes there.
--     Parse.Indexed is the same walk with its panics (`walk_one` for `parse_one`, and so on), over
--     the indices, slices and sums of Panics.
--   Reading: the public reads of owid.rs (`from_byte_array`, `read_from_prefix`, `from_base64`), and
--     `ParseStatus::of` and `of_frame` of status.rs.
--   Envelope: the table of the format in the documentation of lib.rs as a function of the fields,
--     which the writes and the reads are proved against.
--   Text: Rust's `str` as a list of characters; Text.Utf8 its UTF-8 bytes, with `from_utf8`.
--   Platform: what is not the crate's: `usize` and the allocator (Machine) and the
--     crates chrono (Chrono) and p256 (P256), with the behaviour that the crate relies on as
--     IsChrono and IsP256. Reading.Base64 is the base 64 engine.
--   Schedule: schedule.rs. A schedule is the list of its keys after the stable sort; the loop of
--     `key_in_force` goes down by index as the code's does.
--   Crypto, Creator: crypto.rs, creator.rs and the checks of owid.rs (`verify_with_public_key`, ..).
--     What the operating system draws and the time of the clock are arguments.
--   Fetch: fetch.rs. `HeldKey` and `KeyAnswer` with the spans they cover; Fetch.Cache: the cache and
--     `hold`, `held_for`, `widen`, `clear_cache` on it, the time of the clock an argument;
--     Fetch.Url: `public_key_url`, `key_url_at`, `end_point_of`, `minute_of`; Fetch.Verify: `verify`,
--     `verify_at_url` and the neighbouring keys, over an interface (Creators) for `key_at_url`, which
--     passes on the state of the cache and the transport.
--     Fetch.Request: `request_public_key`, of what the transport handed back. Fetch.Flight:
--     `key_at_url` for any number of callers, as a machine (World) whose events (Run) are what one caller
--     does between two points where another can run: it takes a turn under the lock of the cache
--     (`ask`), is polled while it waits (`poll_finished`), is handed the answer of the transport
--     (`outcome_of`), and drops its `Leader` in two steps, the entry first (`remove_entry`) and the
--     end of the fetch with the waking of its callers second (`end_flight`). A future can be dropped
--     at every await, and the cache can be cleared at any time. A caller stands for its task: it has
--     one waker, known by its number. Fetch.Sole: `key_at_url` with no other caller, which gives
--     Fetch.Verify its keys.
--   ReqwestFetch: reqwest_fetch.rs, the transport over the crate reqwest, whose calls are an
--     interface (Reqwest).
--   Answer: `PublicKeyAnswer` of key_answer.rs with `validate`; Answer.Write and
--     Answer.Json: its JSON, written and read, the characters from the index on as a list.
--     Answer.Json.Indexed is the same reader by index, with its panics (`walk_string` for
--     `read_string`, and so on).
--   Endpoints: endpoints.rs. `public_key_response_at` answers with a status and a body.
--   Display: the texts of errors and statuses, and the text forms of an OWID and its payload.
--   Tests: concrete machines, clocks and OWIDs, runs, and each theorem at one of them.
--
-- Numbers are natural numbers. u8 values are lists of numbers, with `IsByte` where a theorem needs
-- the bound; the signed counts are integers (Prelude.Int). `Machine` gives `usize::MAX` and the
-- answers of `try_reserve_exact`, as a function of the size asked for. The loops on fuel are
-- `read_frames`, the loop of a caller, for which as many rounds as bytes are enough, and
-- `read_fields`, the loop over the fields of a JSON object, for which one round more than characters
-- is; UTF-8 decoding takes a byte in each round, and a number is written in decimal in twenty
-- rounds, one for each digit of a u64. The loops of Answer.Json.Indexed (`walk_space`, `walk_chars`,
-- `walk_fields`) have one round more than characters, and one that ran out of them would count as
-- a panic. The walks take a slice to hold `isize::MAX` bytes at most, as Rust does; a moment moved by
-- chrono is not among what can panic there.
--
-- Not modelled: `payload_as_string`, which is `from_utf8_lossy` of the standard library, the getters
-- and the conversions that only call what is modelled, and the locks themselves: an event
-- holds each lock that the code takes for as long as the code does, and a poisoned lock is used as
-- the code uses it.
pub mod Prelude
pub mod Text
pub mod Version
pub mod Error
pub mod Status
pub mod Platform
pub mod Io
pub mod Owid
pub mod Parse
pub mod Envelope
pub mod Reading
pub mod Tests
pub mod Fetch
pub mod Schedule
pub mod Crypto
pub mod Creator
pub mod Answer
pub mod Endpoints
pub mod Display
pub mod ReqwestFetch
pub mod Panics
