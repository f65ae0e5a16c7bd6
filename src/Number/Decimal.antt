-- ===== src/Number/Decimal.antt =====
-- Reading decimal digits: what the loops compute on them, in plain arithmetic.
use linux_sensors.Base.{
  ℕ, ◌+◌, ◌-◌, ◌*◌, ◌≤◌, ◌<◌, ◌≡◌, refl, ap, ◌∙◌, [], ◌∷◌, Bytes, ok, All, arith,
}
use linux_sensors.Base.Int.{pos, to_short, int_result}
use linux_sensors.Number.{next_value, fast_atoi_from, str_to_short_from}

abbrev pub IsDigit : ℕ → Type 0
IsDigit c = (b'0' ≤ c) × (c ≤ b'9')

-- The number that digits spell behind the digits of `n`.
abbrev pub decimal : ℕ → Bytes → ℕ
decimal n [] = n
decimal n (c ∷ cs) = decimal (n * 10 + (c - b'0')) cs

pub le-decimal : (s : Bytes) (n : ℕ) → n ≤ decimal n s
le-decimal [] n = omega arith
le-decimal (c ∷ s) n = omega (arith, le-decimal s (n * 10 + (c - b'0')))

pub next_value-digit : (n c : ℕ) → IsDigit c → next_value (pos n) c ≡ pos (n * 10 + (c - b'0'))
next_value-digit n c h = ground arith

pub int_result-small : (n : ℕ) → n < 2147483648 → int_result (pos n) ≡ ok (pos n)
int_result-small n h = ground arith

pub fast_atoi_from-decimal :
    (s : Bytes) (n : ℕ)
    → All IsDigit s
    → decimal n s < 2147483648
    → fast_atoi_from (pos n) s ≡ ok (pos (decimal n s))
unfolding fast_atoi_from
fast_atoi_from-decimal [] n h lt = refl
fast_atoi_from-decimal (c ∷ s) n (hc, hs) lt =
    rw
      (
        next_value-digit n c hc,
        int_result-small (n * 10) (omega (arith, le-decimal s (n * 10 + (c - b'0')))),
        int_result-small (n * 10 + (c - b'0')) (omega (arith, le-decimal s (n * 10 + (c - b'0')))),
      )
      (fast_atoi_from-decimal s (n * 10 + (c - b'0')) hs lt)

-- A round in a `short` is a round on the whole number, taken mod 2 ^ 16.
short_round :
    (n d : ℕ)
    → d < 10
    → to_short (next_value (to_short (pos n)) (b'0' + d)) ≡ to_short (pos (n * 10 + d))
short_round n d h = ground arith

short_round-digit :
    (n c : ℕ)
    → IsDigit c
    → to_short (next_value (to_short (pos n)) c) ≡ to_short (pos (n * 10 + (c - b'0')))
short_round-digit n c h =
    ap (λ k. to_short (next_value (to_short (pos n)) k)) {x = c} {y = b'0' + (c - b'0')}
      (omega arith)
    ∙ short_round n (c - b'0') (omega arith)

pub str_to_short_from-decimal :
    (s : Bytes) (n : ℕ)
    → All IsDigit s
    → str_to_short_from (to_short (pos n)) s ≡ to_short (pos (decimal n s))
unfolding str_to_short_from
str_to_short_from-decimal [] n h = refl
str_to_short_from-decimal (c ∷ s) n (hc, hs) =
    ap (λ v. str_to_short_from v s) (short_round-digit n c hc)
    ∙ str_to_short_from-decimal s (n * 10 + (c - b'0')) hs

pub to_short-small : (n : ℕ) → n < 32768 → to_short (pos n) ≡ pos n
to_short-small n h = ground arith
