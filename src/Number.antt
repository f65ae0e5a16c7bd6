-- ===== src/Number.antt =====
-- The conversions between numbers and text: `fast_atoi` and `str_to_short` of include/utils/utils.h,
-- std::to_string and std::atoi. A `char` is signed; `int` arithmetic that overflows is `undefined`.
pub mod Decimal
pub mod RoundTrip
use linux_sensors.Base.{
  ℕ, zero, suc, ◌+◌, ◌*◌, ◌/◌, ◌%◌, [], ◌∷◌, Bytes, ltb, leb, ◌&&◌, if◌then◌else◌, Outcome, ok,
  ◌>>=◌, Bool,
}
use linux_sensors.Base.Int.{ℤ, pos, negsuc, pos_part, neg_part, sub_ℕ, to_short, int_result}

-- `v * 10 + (c - '0')`, for a byte `c` read as a signed char.
abbrev pub next_value : ℤ → ℕ → ℤ
next_value v c =
    if ltb c 128
    then sub_ℕ (pos_part v * 10 + c) (neg_part v * 10 + 48)
    else sub_ℕ (pos_part v * 10 + c) (neg_part v * 10 + 304)

abbrev pub times_ten : ℤ → ℤ
times_ten (pos n) = pos (n * 10)
times_ten (negsuc n) = negsuc (n * 10 + 9)

-- The loop of `fast_atoi`: both the product and the sum may overflow.
unfoldable pub fast_atoi_from : ℤ → Bytes → Outcome ℤ
fast_atoi_from val [] = ok val
fast_atoi_from val (c ∷ cs) = do
  tens ← int_result (times_ten val)
  next ← int_result (next_value val c)
  fast_atoi_from next cs

unfoldable pub fast_atoi : Bytes → Outcome ℤ
unfolding fast_atoi_from
fast_atoi text = fast_atoi_from (pos 0) text

-- `str_to_short`: each round is computed in `int` and stored in a `short`.
unfoldable pub str_to_short_from : ℤ → Bytes → ℤ
str_to_short_from pid [] = pid
str_to_short_from pid (c ∷ cs) = str_to_short_from (to_short (next_value pid c)) cs

unfoldable pub str_to_short : Bytes → ℤ
unfolding str_to_short_from
str_to_short text = str_to_short_from (pos 0) text

-- The decimal digits of a number below 10 ^ fuel, before `rest`.
unfoldable pub digits : ℕ → ℕ → Bytes → Bytes
digits zero n rest = rest
digits (suc fuel) n rest =
    let more = digits fuel (n / 10) ((48 + n % 10) ∷ rest) in
    if ltb n 10 then (48 + n) ∷ rest else more

-- std::to_string of an integer of at most 64 bits, which has at most 20 digits.
unfoldable pub to_string : ℤ → Bytes
unfolding digits
to_string (pos n) = digits 20 n []
to_string (negsuc n) = b'-' ∷ digits 20 (suc n) []

abbrev pub is_digit : ℕ → Bool
is_digit c = leb b'0' c && leb c b'9'
