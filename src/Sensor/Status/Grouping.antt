-- ===== src/Sensor/Status/Grouping.antt =====
-- The numbers that include/utils/comma_numpunct.h groups.
use linux_sensors.Base.{
  ℕ, zero, suc, ◌≡◌, ◌+◌, ◌/◌, ◌%◌, ◌^◌, ◌<◌, ◌≤◌, [], ◌∷◌, ◌++◌, Bytes, refl, ap, sym, ◌∙◌, ltb,
  if◌then◌else◌, lt→ltb, ltb→lt, ltb-false→le, ap₂, true, Bool-cases, inl, inr, arith,
}
use linux_sensors.Base.Int.{pos}
use linux_sensors.Number.{to_string, digits}
use linux_sensors.Sensor.Status.{put_digit, grouped_digits, comma_number}

put_digit_append :
    (done d : ℕ) (rest more : Bytes)
    → put_digit done d (rest ++ more) ≡ put_digit done d rest ++ more
unfolding put_digit
put_digit_append done d rest more = elim (Bool-cases (ltb 0 done)) [
  | inl e ↦ rw e (remainder (done % 3))
  | inr e ↦ rw e refl
]
  where
    remainder :
        (m : ℕ)
        → (elim m as (λ x. Bytes) [ zero ↦ d ∷ b',' ∷ (rest ++ more) | suc k ↦ d ∷ (rest ++ more) ])
          ≡ (elim m as (λ x. Bytes) [ zero ↦ d ∷ b',' ∷ rest | suc k ↦ d ∷ rest ]) ++ more
    remainder zero = refl
    remainder (suc k) = refl

grouped_digits_append :
    (fuel n done : ℕ) (rest more : Bytes)
    → grouped_digits fuel n done (rest ++ more) ≡ grouped_digits fuel n done rest ++ more
unfolding grouped_digits
grouped_digits_append zero n done rest more = refl
grouped_digits_append (suc fuel) n done rest more = ground (
  arith,
  put_digit_append done (48 + n) rest more,
  put_digit_append done (48 + n % 10) rest more,
  grouped_digits_append fuel (n / 10) (done + 1) (put_digit done (48 + n % 10) rest) more,
)

-- Three digits further on the commas stand at the same places.
put_digit_shift :
    (done d : ℕ) (rest : Bytes) → 0 < done → put_digit (done + 3) d rest ≡ put_digit done d rest
unfolding put_digit
put_digit_shift done d rest h =
    let same : (done + 3) % 3 ≡ done % 3 = omega arith in
    let pos_3 : ltb 0 (done + 3) ≡ true = lt→ltb 0 (done + 3) (omega arith) in
    rw (same, pos_3, lt→ltb 0 done h) refl

grouped_digits_shift :
    (fuel n done : ℕ) (rest : Bytes)
    → 0 < done
    → grouped_digits fuel n (done + 3) rest ≡ grouped_digits fuel n done rest
unfolding grouped_digits
grouped_digits_shift zero n done rest h = refl
grouped_digits_shift (suc fuel) n done rest h = elim (Bool-cases (ltb n 10)) [
  | inl e ↦ rw e (put_digit_shift done (48 + n) rest h)
  | inr e ↦
      let onward : done + 3 + 1 ≡ done + 1 + 3 = omega arith in
      rw (e, put_digit_shift done (48 + n % 10) rest h, onward)
        (grouped_digits_shift fuel (n / 10) (done + 1) (put_digit done (48 + n % 10) rest)
          (omega arith))
]

grouped_digits_comma :
    (fuel n : ℕ) (rest : Bytes)
    → grouped_digits (suc fuel) n 3 rest ≡ grouped_digits (suc fuel) n 0 [] ++ b',' ∷ rest
unfolding grouped_digits put_digit
grouped_digits_comma fuel n rest = elim (Bool-cases (ltb n 10)) [
  | inl e ↦ rw e refl
  | inr e ↦ rw e (
      grouped_digits_shift fuel (n / 10) 1 ((48 + n % 10) ∷ b',' ∷ rest) (omega arith)
      ∙ grouped_digits_append fuel (n / 10) 1 ((48 + n % 10) ∷ []) (b',' ∷ rest))
]

grouped_digits_fuel :
    (f g n done : ℕ) (rest : Bytes)
    → n < 10 ^ suc f
    → n < 10 ^ suc g
    → grouped_digits (suc f) n done rest ≡ grouped_digits (suc g) n done rest
unfolding grouped_digits
grouped_digits_fuel zero g n done rest h k = rw (lt→ltb n 10 (omega arith)) refl
grouped_digits_fuel (suc f) zero n done rest h k = rw (lt→ltb n 10 (omega arith)) refl
grouped_digits_fuel (suc f) (suc g) n done rest h k =
    ground (arith, grouped_digits_fuel f g (n / 10) (done + 1) (put_digit done (48 + n % 10) rest))

-- A number below 1000 has no comma.
grouped_digits_small :
    (f n : ℕ)
    → n < 1000
    → grouped_digits (suc (suc (suc f))) n 0 [] ≡ digits (suc (suc (suc f))) n []
unfolding grouped_digits put_digit digits
grouped_digits_small f n h = ground arith

abbrev pub three_digits : ℕ → Bytes
three_digits k = (48 + k / 100) ∷ (48 + k / 10 % 10) ∷ (48 + k % 10) ∷ []

-- The number in groups of three digits, from the left.
unfoldable pub thousands : ℕ → ℕ → Bytes
thousands zero n = []
thousands (suc groups) n =
    let front = thousands groups (n / 1000) in
    if ltb n 1000 then to_string (pos n) else front ++ b',' ∷ three_digits (n % 1000)

grouped_digits_step :
    (fuel n done : ℕ) (rest : Bytes)
    → 10 ≤ n
    → grouped_digits (suc fuel) n done rest
      ≡ grouped_digits fuel (n / 10) (done + 1) (put_digit done (48 + n % 10) rest)
unfolding grouped_digits
grouped_digits_step fuel n done rest h = ground arith

last_three :
    (n : ℕ)
    → put_digit 2
        (48 + n / 10 / 10 % 10)
        (put_digit 1 (48 + n / 10 % 10) (put_digit 0 (48 + n % 10) []))
      ≡ three_digits (n % 1000)
unfolding put_digit
last_three n =
    let a : n / 10 / 10 % 10 ≡ n % 1000 / 100 = omega arith in
    let b : n / 10 % 10 ≡ n % 1000 / 10 % 10 = omega arith in
    let c : n % 10 ≡ n % 1000 % 10 = omega arith in rw (a, b, c) refl

grouped_digits_large :
    (f n : ℕ)
    → 1000 ≤ n
    → grouped_digits (suc (suc (suc (suc f)))) n 0 []
      ≡ grouped_digits (suc f) (n / 1000) 0 [] ++ b',' ∷ three_digits (n % 1000)
grouped_digits_large f n h =
    let m : n / 10 / 10 / 10 ≡ n / 1000 = omega arith in
    grouped_digits_step (suc (suc (suc f))) n 0 [] (omega arith)
    ∙ grouped_digits_step (suc (suc f)) (n / 10) 1 _ (omega arith)
    ∙ grouped_digits_step (suc f) (n / 10 / 10) 2 _ (omega arith)
    ∙ ap₂ (λ k t. grouped_digits (suc f) k 3 t) m (last_three n)
    ∙ grouped_digits_comma f (n / 1000) (three_digits (n % 1000))

small_string : (n : ℕ) → n < 1000 → grouped_digits 20 n 0 [] ≡ to_string (pos n)
small_string n h = grouped_digits_small 17 n h ∙ unfold to_string in refl

module _ (groups n : ℕ) where
  thousands_small : n < 1000 → thousands (suc groups) n ≡ to_string (pos n)
  unfolding thousands
  thousands_small h = rw (lt→ltb n 1000 h) refl

  thousands_large :
      ¬ (n < 1000)
      → thousands (suc groups) n ≡ thousands groups (n / 1000) ++ b',' ∷ three_digits (n % 1000)
  unfolding thousands
  thousands_large h = elim (Bool-cases (ltb n 1000)) [
    | inl e ↦ absurd (h (ltb→lt n 1000 e))
    | inr e ↦ rw e refl
  ]

grouped_digits-thousands :
    (groups n : ℕ)
    → n < 1000 ^ suc groups
    → n < 10 ^ 20
    → grouped_digits 20 n 0 [] ≡ thousands (suc groups) n
grouped_digits-thousands zero n h l = small_string n h ∙ sym (thousands_small 0 n h)
grouped_digits-thousands (suc groups) n h l = elim (Bool-cases (ltb n 1000)) [
  | inl e ↦
      small_string n (ltb→lt n 1000 e) ∙ sym (thousands_small (suc groups) n (ltb→lt n 1000 e))
  | inr e ↦
      grouped_digits_large 16 n (omega (arith, ltb-false→le n 1000 e))
      ∙ ap (λ t. t ++ b',' ∷ three_digits (n % 1000))
          (grouped_digits_fuel 16 19 (n / 1000) 0 [] (omega arith) (omega arith)
            ∙ grouped_digits-thousands groups (n / 1000) (omega arith) (omega arith))
      ∙ sym (thousands_large (suc groups) n (ltb-false→le n 1000 e))
]

-- A size_t in a report is the decimal print of a number below 1000, or the groups of the thousands, a
-- comma, and the last three digits.
pub comma_number-thousands : (n : ℕ) → n < 2 ^ 64 → comma_number n ≡ thousands 7 n
unfolding comma_number
comma_number-thousands n h = grouped_digits-thousands 6 n (omega arith) (omega arith)
