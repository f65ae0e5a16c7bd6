-- ===== src/Number/RoundTrip.antt =====
-- The numbers that std::to_string prints are read back by `fast_atoi`; `str_to_short` keeps 16 bits.
use linux_sensors.Base.{
  ℕ, zero, suc, ◌+◌, ◌/◌, ◌%◌, ◌^◌, ◌<◌, ◌≡◌, ap, ◌∙◌, [], ◌∷◌, Bytes, ok, All, arith, ◌↔◌,
}
use linux_sensors.Base.Int.{pos, to_short}
use linux_sensors.Number.{digits, to_string, fast_atoi, str_to_short}
use linux_sensors.Number.Decimal.{
  IsDigit, decimal, fast_atoi_from-decimal, str_to_short_from-decimal, to_short-small,
}

pub digits-IsDigit :
    (fuel n : ℕ) (rest : Bytes) → All IsDigit rest → All IsDigit (digits fuel n rest)
unfolding digits
digits-IsDigit zero n rest h = h
digits-IsDigit (suc fuel) n rest h =
    ground (arith, digits-IsDigit fuel (n / 10) ((48 + n % 10) ∷ rest) (omega arith, h))

pub decimal-digits :
    (fuel n : ℕ) (rest : Bytes) → n < 10 ^ fuel → decimal 0 (digits fuel n rest) ≡ decimal n rest
unfolding digits
decimal-digits zero n rest h = ap (λ k. decimal k rest) {x = 0} {y = n} (omega arith)
decimal-digits (suc fuel) n rest h =
    ground (arith, decimal-digits fuel (n / 10) ((48 + n % 10) ∷ rest))

-- `fast_atoi` reads back every `int` that is not negative from its decimal print, and no step of it
-- overflows.
pub fast_atoi-to_string : (n : ℕ) → n < 2 ^ 31 → fast_atoi (to_string (pos n)) ≡ ok (pos n)
unfolding fast_atoi to_string
fast_atoi-to_string n h =
    let back = decimal-digits 20 n [] (omega arith) in
    fast_atoi_from-decimal (digits 20 n []) 0 (digits-IsDigit 20 n [] tt) (omega (arith, back))
    ∙ ap (λ k. ok (pos k)) back

-- `str_to_short` reads the low 16 bits of a number from its decimal print, as a signed number.
pub str_to_short-to_string :
    (n : ℕ) → n < 2 ^ 64 → str_to_short (to_string (pos n)) ≡ to_short (pos n)
unfolding str_to_short to_string
str_to_short-to_string n h =
    str_to_short_from-decimal (digits 20 n []) 0 (digits-IsDigit 20 n [] tt)
    ∙ ap (λ k. to_short (pos k)) (decimal-digits 20 n [] (omega arith))

short_in_range : (n : ℕ) → (to_short (pos n) ≡ pos n) ↔ (n < 32768)
short_in_range n = (λ h. ground arith, λ h. to_short-small n h)

-- The process id that `str_to_short` reads from the print of `n` is `n` exactly when `n` is below
-- 32768; the print of a larger process id is read as another number.
pub str_to_short_iff :
    (n : ℕ) → n < 2 ^ 64 → (str_to_short (to_string (pos n)) ≡ pos n) ↔ (n < 32768)
str_to_short_iff n h = rw (str_to_short-to_string n h) (short_in_range n)
