-- ===== src/Text.antt =====
-- include/utils/string_ref.h and the string splitters of include/utils/utils.h. A string is its
-- bytes; an iterator into it is an offset. A read outside the string is `undefined`.
pub mod Completed
pub mod Lines
pub mod Tokens
pub mod Fast
use linux_sensors.Base.Int.{through_int}
use linux_sensors.Base.{
  ℕ, zero, suc, ◌+◌, ◌-◌, ◌%◌, ◌^◌, List, [], ◌∷◌, ◌++◌, Option, none, some, Bool, true, false,
  Bytes, ltb, leb, ◌==◌, ◌&&◌, if◌then◌else◌, length, take, drop, get_elem?, slice, Outcome, ok,
  thrown, undefined, ◌>>=◌,
}

-- `class StringRef`: `begin_` as an offset into the string that it points into, `size_`, and the
-- copy `buffer_`.
pub record StringRef : Type 0 where
  pub start : ℕ
  pub size : ℕ
  pub buffer : Bytes

-- `StringRef::end`.
abbrev pub end : StringRef → ℕ
end ref = ref.start + ref.size

-- `*it` at an offset of a string.
unfoldable pub read_at : Bytes → ℕ → Outcome ℕ
read_at text i = elim (get_elem? text i) [ none ↦ undefined | some c ↦ ok c ]

-- `std::string(begin, begin + n)` with `n` a size_t: a range whose end wrapped round before its
-- beginning is refused with std::length_error, one that leaves the string is undefined.
unfoldable pub copy_range : Bytes → ℕ → ℕ → Outcome Bytes
copy_range text i n =
    if leb (2 ^ 63) n
    then thrown
    else if leb (i + n) (length text)
    then ok (slice text i n)
    else undefined

-- The constructor from a beginning and a size, which copies the range.
unfoldable pub string_ref : Bytes → ℕ → ℕ → Outcome StringRef
unfolding copy_range
string_ref text i n = do
  copy ← copy_range text i n
  ok (record { start = i; size = n; buffer = copy })

-- The constructor from two iterators, which copies nothing.
unfoldable pub string_ref_range : ℕ → ℕ → StringRef
string_ref_range i j = record { start = i; size = j - i; buffer = [] }

-- The reference to the characters from one offset up to another, inside the string.
abbrev pub piece : Bytes → ℕ → ℕ → StringRef
piece text i j = record { start = i; size = j - i; buffer = slice text i (j - i) }

-- The text that a reference stands for, `std::string(ref.begin(), ref.end())` of `operator<<`.
abbrev pub view : Bytes → StringRef → Bytes
view text ref = slice text ref.start ref.size

unfoldable pub starts_with : Bytes → Bytes → Bool
starts_with [] text = true
starts_with (d ∷ ds) [] = false
starts_with (d ∷ ds) (c ∷ cs) = (d == c) && starts_with ds cs

-- `std::string::find(delimiter, pos)`, over the text from `pos` on.
unfoldable pub find_here : Bytes → Bytes → ℕ → Option ℕ
unfolding starts_with
find_here delimiter [] i = if starts_with delimiter [] then some i else none
find_here delimiter (c ∷ cs) i =
    if starts_with delimiter (c ∷ cs) then some i else find_here delimiter cs (i + 1)

unfoldable pub find : Bytes → Bytes → ℕ → Option ℕ
unfolding find_here
find text delimiter pos =
    if leb pos (length text) then find_here delimiter (drop pos text) pos else none

-- The `while` loop of the splitters, and the variable `prev` that it leaves. The fuel is the
-- number of rounds.
unfoldable pub delimited : ℕ → Bytes → Bytes → ℕ → List StringRef → List StringRef × ℕ
unfolding find
delimited zero text delimiter prev strings = (strings, prev)
delimited (suc fuel) text delimiter prev strings = elim (find text delimiter prev) [
  | none ↦ (strings, prev)
  | some pos ↦ delimited fuel text delimiter (pos + 1) (strings ++ piece text prev pos ∷ [])
]

-- What a splitter leaves: the references, the string that it was given, and `last_line`.
pub record Split : Type 0 where
  pub lines : List StringRef
  pub text : Bytes
  pub last_line : Bytes

-- `str.size() - 1` in size_t.
abbrev pub last_index : Bytes → ℕ
last_index text = (length text + 2 ^ 64 - 1) % 2 ^ 64

-- What follows the loop of `split_string` and `parse_trace`: a rest that starts before the last
-- byte is moved to `last_line`. (`parse_trace` copies the rest to `prevs` once more.)
abbrev pub split_result : Bytes → Bytes → List StringRef × ℕ → Split
split_result text last_line (strings, prev) =
    if ltb prev (last_index text)
    then record { lines = strings; text = take prev text; last_line = last_line ++ drop prev text }
    else record { lines = strings; text = text; last_line = last_line }

-- `split_string`: at most `length text + 1` delimiters are found, so the fuel is enough.
unfoldable pub split_string : Bytes → Bytes → Bytes → Split
unfolding delimited
split_string text delimiter last_line =
    split_result text last_line (delimited (length text + 2) text delimiter 0 [])

-- `parse_trace` is the same code, with one more copy of the rest.
unfoldable pub parse_trace : Bytes → Bytes → Bytes → Split
unfolding delimited
parse_trace text delimiter last_line =
    split_result text last_line (delimited (length text + 2) text delimiter 0 [])

-- `split_fast` gives the last reference the size of the whole string.
unfoldable pub split_fast : Bytes → Bytes → Outcome (List StringRef)
unfolding delimited string_ref
split_fast text delimiter =
    let (strings, prev) = delimited (length text + 2) text delimiter 0 [] in
    if ltb prev (length text)
    then (do last ← string_ref text prev (length text); ok (strings ++ last ∷ []))
    else ok strings

-- The enumeration of `split3`.
pub data State : Type 0 where
  in_space in_token : State

-- The loop of `split3`: the rest of the text, its offset `it`, the state and `pTokenBegin`.
-- The size of a last token passes through an `int`.
unfoldable pub tokens :
    Bytes → ℕ → Bytes → ℕ → State → ℕ → List StringRef → Outcome (List StringRef)
unfolding string_ref
tokens text delimiter [] it in_space token_begin result = ok result
tokens text delimiter [] it in_token token_begin result = do
  last ← string_ref text token_begin (through_int (it - token_begin))
  ok (result ++ last ∷ [])
tokens text delimiter (c ∷ cs) it in_space token_begin result =
    if c == delimiter
    then tokens text delimiter cs (it + 1) in_space token_begin result
    else tokens text delimiter cs (it + 1) in_token it result
tokens text delimiter (c ∷ cs) it in_token token_begin result =
    if c == delimiter
    then tokens text delimiter cs (it + 1) in_space token_begin
        (result ++ piece text token_begin it ∷ [])
    else tokens text delimiter cs (it + 1) in_token token_begin result

unfoldable pub split3 : Bytes → ℕ → Outcome (List StringRef)
unfolding tokens
split3 text delimiter = tokens text delimiter text 0 in_space 0 []
