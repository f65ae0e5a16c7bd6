-- ===== src/Encoding/Tables.antt =====
-- The masks and shifts of include/utils/encoding.h in plain arithmetic, and the alphabet: tables
-- checked by evaluation.
use Prim.Native.Nat.{bit_and}
use linux_sensors.Base.{
  ℕ, zero, suc, ◌+◌, ◌*◌, ◌/◌, ◌%◌, ◌<◌, ◌≡◌, refl, Bool, true, ◌&&◌, not, ◌==◌, ==_iff, arith,
}
use linux_sensors.Encoding.{
  is_base64, digit, digit_value, group_0, group_1, group_2, group_3, byte_0, byte_1, byte_2,
}

-- Whether a test holds of every number below a bound.
passes : (ℕ → Bool) → ℕ → Bool
passes test zero = true
passes test (suc bound) = passes test bound && test bound

module _ (test : ℕ → Bool) where
  passes_at : (bound x : ℕ) → x < bound → passes test bound ≡ true → test x ≡ true
  unfolding passes
  passes_at zero x lt all = absurd (omega arith)
  passes_at (suc bound) x lt all = ground (arith, passes_at bound x)

module _ (f g : ℕ → ℕ) where
  agree : (n : ℕ) → passes (λ x. f x == g x) n ≡ true → (x : ℕ) → x < n → f x ≡ g x
  agree n h x lt = (==_iff (f x) (g x)).0 (passes_at (λ y. f y == g y) n x lt h)

top_six : (x : ℕ) → x < 256 → bit_and x 0xfc / 4 ≡ x / 4
unfolding passes
top_six = agree (λ x. bit_and x 0xfc / 4) (λ x. x / 4) 256 refl

low_two : (x : ℕ) → x < 256 → bit_and x 0x03 ≡ x % 4
unfolding passes
low_two = agree (λ x. bit_and x 0x03) (λ x. x % 4) 256 refl

top_four : (x : ℕ) → x < 256 → bit_and x 0xf0 / 16 ≡ x / 16
unfolding passes
top_four = agree (λ x. bit_and x 0xf0 / 16) (λ x. x / 16) 256 refl

low_four : (x : ℕ) → x < 256 → bit_and x 0x0f ≡ x % 16
unfolding passes
low_four = agree (λ x. bit_and x 0x0f) (λ x. x % 16) 256 refl

top_two : (x : ℕ) → x < 256 → bit_and x 0xc0 / 64 ≡ x / 64
unfolding passes
top_two = agree (λ x. bit_and x 0xc0 / 64) (λ x. x / 64) 256 refl

low_six : (x : ℕ) → x < 256 → bit_and x 0x3f ≡ x % 64
unfolding passes
low_six = agree (λ x. bit_and x 0x3f) (λ x. x % 64) 256 refl

bits_4_5 : (x : ℕ) → x < 256 → bit_and x 0x30 / 16 ≡ x / 16 % 4
unfolding passes
bits_4_5 = agree (λ x. bit_and x 0x30 / 16) (λ x. x / 16 % 4) 256 refl

bits_2_5 : (x : ℕ) → x < 256 → bit_and x 0x3c / 4 ≡ x / 4 % 16
unfolding passes
bits_2_5 = agree (λ x. bit_and x 0x3c / 4) (λ x. x / 4 % 16) 256 refl

-- The alphabet: each index has its own character, which the decoder accepts.
pub digit_value-digit : (k : ℕ) → k < 64 → digit_value (digit k) ≡ k
unfolding passes digit_value digit
digit_value-digit = agree (λ k. digit_value (digit k)) (λ k. k) 64 refl

pub accepts-digit : (k : ℕ) → k < 64 → (not (digit k == b'=') && is_base64 (digit k)) ≡ true
unfolding passes is_base64 digit
accepts-digit k h = passes_at (λ j. not (digit j == b'=') && is_base64 (digit j)) 64 k h refl

-- The indices of three bytes in plain arithmetic.
pub group_0_lem : (a : ℕ) → a < 256 → group_0 a ≡ a / 4
unfolding group_0
group_0_lem a ha = top_six a ha

pub group_1_lem : (a b : ℕ) → a < 256 → b < 256 → group_1 a b ≡ a % 4 * 16 + b / 16
unfolding group_1
group_1_lem a b ha hb = omega (arith, low_two a ha, top_four b hb)

pub group_2_lem : (b c : ℕ) → b < 256 → c < 256 → group_2 b c ≡ b % 16 * 4 + c / 64
unfolding group_2
group_2_lem b c hb hc = omega (arith, low_four b hb, top_two c hc)

pub group_3_lem : (c : ℕ) → c < 256 → group_3 c ≡ c % 64
unfolding group_3
group_3_lem c hc = low_six c hc

-- The bytes of four indices.
pub byte_0-groups : (a b : ℕ) → a < 256 → b < 256 → byte_0 (group_0 a) (group_1 a b) ≡ a
unfolding byte_0
byte_0-groups a b ha hb = omega (
  arith,
  group_0_lem a ha,
  group_1_lem a b ha hb,
  bits_4_5 (group_1 a b) (omega (arith, group_1_lem a b ha hb)),
)

pub byte_1-groups :
    (a b c : ℕ) → a < 256 → b < 256 → c < 256 → byte_1 (group_1 a b) (group_2 b c) ≡ b
unfolding byte_1
byte_1-groups a b c ha hb hc = omega (
  arith,
  group_1_lem a b ha hb,
  group_2_lem b c hb hc,
  low_four (group_1 a b) (omega (arith, group_1_lem a b ha hb)),
  bits_2_5 (group_2 b c) (omega (arith, group_2_lem b c hb hc)),
)

pub byte_2-groups : (b c : ℕ) → b < 256 → c < 256 → byte_2 (group_2 b c) (group_3 c) ≡ c
unfolding byte_2
byte_2-groups b c hb hc = omega (
  arith,
  group_2_lem b c hb hc,
  group_3_lem c hc,
  low_two (group_2 b c) (omega (arith, group_2_lem b c hb hc)),
)
