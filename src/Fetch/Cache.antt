-- ===== src/Fetch/Cache.antt =====
-- fetch.rs: the cache of keys, by the end point that answered with them. The hash map is a list
-- of entries of which a lookup takes the first of the name.
pub mod Spans
pub mod Apart
pub mod Count
pub mod Truth
pub mod Served
use owid_rust.Prelude.{
  ℕ, zero, suc, ◌+◌, ◌-◌, min, max, List, [], ◌∷◌, ◌++◌, Bool, true, false, Option, none, some,
  get_elem?, any, position, leb, ltb, not, ◌&&◌, ◌||◌, if◌then◌else◌,
}
use owid_rust.Text.{Str}
use owid_rust.Text.Same.{same}
use owid_rust.Fetch.{
  HeldKey, KeyAnswer, covers, stated, answer_stated, maximum_cached_keys, settled,
}

abbrev pub Keys : Type 0
Keys = List (Str × List HeldKey)

-- A fetch under way is known by its number.
pub record Cache : Type 0 where
  pub keys : Keys
  pub held : ℕ
  pub in_flight : List (Str × ℕ)

abbrev pub get : Keys → Str → Option (List HeldKey)
get [] end_point = none
get ((name, keys) ∷ rest) end_point = if same name end_point then some keys else get rest end_point

-- What `entry(..).or_default()` and `get_mut(..)` are given, put in the place of what was there.
abbrev pub put : Keys → Str → List HeldKey → Keys
put [] end_point held = (end_point, held) ∷ []
put ((name, keys) ∷ rest) end_point held =
    if same name end_point then (name, held) ∷ rest else (name, keys) ∷ put rest end_point held

abbrev pub get_or_default : Option (List HeldKey) → List HeldKey
get_or_default none = []
get_or_default (some keys) = keys

abbrev pub find : (HeldKey → Bool) → List HeldKey → Option HeldKey
find p [] = none
find p (key ∷ keys) = if p key then some key else find p keys

abbrev pub serves : ℕ → Bool → HeldKey → Bool
serves minute recent key = covers key minute && (key.explicit || not recent)

abbrev pub answer_of : Option HeldKey → Option KeyAnswer
answer_of none = none
answer_of (some key) = some (stated key)

unfoldable pub held_for : Cache → Str → ℕ → Bool → Option KeyAnswer
held_for cache end_point minute recent =
    answer_of (find (serves minute recent) (get_or_default (get cache.keys end_point)))

abbrev pub overlaps : ℕ → ℕ → HeldKey → Bool
overlaps first last other = leb first other.last && leb other.first last

-- `enumerate().any(|(i, other)| i != index && ..)`
abbrev pub any_other : (HeldKey → Bool) → List HeldKey → ℕ → Bool
any_other p [] index = false
any_other p (key ∷ keys) zero = any p keys
any_other p (key ∷ keys) (suc index) = p key || any_other p keys index

abbrev pub update : List HeldKey → ℕ → (HeldKey → HeldKey) → List HeldKey
update [] index change = []
update (key ∷ keys) zero change = change key ∷ keys
update (key ∷ keys) (suc index) change = key ∷ update keys index change

abbrev pub set_span : ℕ → ℕ → HeldKey → HeldKey
set_span first last key = record key { first = first; last = last }

abbrev pub widen_at : List HeldKey → ℕ → ℕ → ℕ → List HeldKey × Bool
widen_at keys index first last =
    if any_other (overlaps first last) keys index
    then (keys, false)
    else (update keys index (set_span first last), true)

-- An index past the end would panic; `hold` gives one at which a key was found.
abbrev pub widen_to : List HeldKey → ℕ → ℕ → ℕ → Option HeldKey → List HeldKey × Bool
widen_to keys index first last none = (keys, false)
widen_to keys index first last (some key) =
    widen_at keys index (min first key.first) (max last key.last)

unfoldable pub widen : List HeldKey → ℕ → ℕ → ℕ → List HeldKey × Bool
widen keys index first last = widen_to keys index first last (get_elem? keys index)

pub record Span : Type 0 where
  pub first : ℕ
  pub last : ℕ
  pub explicit : Bool
  pub open_ended : Bool

abbrev pub open_span : ℕ → Option ℕ → Span
open_span start clock = record {
  first = start;
  last = max start (settled clock);
  explicit = false;
  open_ended = true;
}

-- The span that an answer is held for, if any.
unfoldable pub span_of : Option ℕ → Option ℕ → Option ℕ → Bool → Option ℕ → Option Span
span_of (some start) (some end) minute recent clock =
    if ltb start end
    then some (record { first = start; last = end - 1; explicit = true; open_ended = false })
    else some (open_span start clock)
span_of (some start) none minute recent clock = some (open_span start clock)
span_of none end (some minute) false clock =
    some (record { first = minute; last = minute; explicit = false; open_ended = false })
span_of none end (some minute) true clock = none
span_of none end none recent clock = none

abbrev pub add_flags : Span → HeldKey → HeldKey
add_flags span key = record key {
  explicit = key.explicit || span.explicit;
  open_ended = not (key.explicit || span.explicit) && (key.open_ended || span.open_ended);
}

abbrev pub flagged : Span → ℕ → List HeldKey × Bool → List HeldKey
flagged span index (keys, true) = update keys index (add_flags span)
flagged span index (keys, false) = keys

-- The full cache is emptied before a key is added.
abbrev pub make_room : Cache → Cache
make_room cache =
    if leb maximum_cached_keys cache.held then record cache { keys = []; held = 0 } else cache

abbrev pub push : Cache → Str → Str → Span → Cache
push cache end_point pem span = record cache {
  keys = put cache.keys end_point (
      get_or_default (get cache.keys end_point)
      ++ (record {
        pem = pem;
        first = span.first;
        last = span.last;
        explicit = span.explicit;
        open_ended = span.open_ended;
      }
          ∷ []));
  held = cache.held + 1;
}

abbrev pub add_new : Cache → Str → Str → Span → List HeldKey → Cache
add_new cache end_point pem span keys =
    if any (overlaps span.first span.last) keys
    then cache
    else push (make_room cache) end_point pem span

unfoldable pub hold_among : Cache → Str → Str → Span → List HeldKey → Option ℕ → Cache
unfolding widen
hold_among cache end_point pem span keys (some index) = record cache {
  keys = put cache.keys end_point (flagged span index (widen keys index span.first span.last));
}
hold_among cache end_point pem span keys none = add_new cache end_point pem span keys

unfoldable pub hold_keys : Cache → Str → Str → Span → Option (List HeldKey) → Cache
hold_keys cache end_point pem span (some keys) =
    hold_among cache end_point pem span keys (position (λ key. same key.pem pem) keys)
hold_keys cache end_point pem span none = push (make_room cache) end_point pem span

abbrev pub hold_span : Cache → Str → Str → Option Span → Cache
hold_span cache end_point pem none = cache
hold_span cache end_point pem (some span) =
    hold_keys cache end_point pem span (get cache.keys end_point)

-- `clock` is the minute of `Utc::now()`, which the code reads where it needs it.
unfoldable pub hold :
    Option ℕ → Cache → Str → Option ℕ → Bool → Str → Option ℕ → Option ℕ → Cache × KeyAnswer
hold clock cache end_point minute recent pem start end = (
  hold_span cache end_point pem (span_of start end minute recent clock),
  answer_stated pem start end,
)

unfoldable pub clear_cache : Cache → Cache
clear_cache cache = record cache { keys = []; held = 0; in_flight = [] }
