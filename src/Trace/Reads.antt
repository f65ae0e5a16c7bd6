-- ===== src/Trace/Reads.antt =====
-- The loops over a field of a line read the characters of the field, and no others.
use linux_sensors.Base.{
  ℕ, zero, suc, ◌+◌, ◌-◌, ◌*◌, ◌<◌, ◌≡◌, ◌≢◌, refl, ap, ◌∙◌, [], ◌∷◌, ◌++◌, Bytes, false, some, ok,
  All, arith, length, get_elem?, drop, replicate, ◌⊎◌, ◌==◌, inl, inr,
}
use linux_sensors.Base.Int.{ℤ, pos, to_short}
use linux_sensors.Text.{read_at}
use linux_sensors.Number.{next_value}
use linux_sensors.Number.Decimal.{
  IsDigit, decimal, le-decimal, next_value-digit, int_result-small, to_short-small,
}
use linux_sensors.Trace.{pid_loop, syscall_loop, skip_while, back_while}

-- The text at an offset inside it.
pub drop_cons :
    (text : Bytes) (i : ℕ)
    → i < length text
    → (c : ℕ) × (get_elem? text i ≡ some c) × (drop i text ≡ c ∷ drop (i + 1) text)
drop_cons [] i h = absurd (omega arith)
drop_cons (x ∷ xs) zero h = (x, refl, refl)
drop_cons (x ∷ xs) (suc i) h =
    let (c, e, d) = drop_cons xs i (omega arith) in
    (c, e, d ∙ ap (λ t. c ∷ drop t (x ∷ xs)) {x = suc (i + 1)} {y = suc i + 1} (omega arith))

pub drop-eq-cons :
    (text : Bytes) (i c : ℕ) (rest : Bytes)
    → drop i text ≡ c ∷ rest
    → (get_elem? text i ≡ some c) × (drop (i + 1) text ≡ rest)
drop-eq-cons [] zero c rest h = cc
drop-eq-cons [] (suc i) c rest h = cc
drop-eq-cons (x ∷ xs) zero c rest h = (cc, cc)
drop-eq-cons (x ∷ xs) (suc i) c rest h =
    let (e, d) = drop-eq-cons xs i c rest h in
    (e, ap (λ t. drop t (x ∷ xs)) {x = suc i + 1} {y = suc (i + 1)} (omega arith) ∙ d)

pub read_at-Stands :
    (text : Bytes) (i c : ℕ) (rest : Bytes) → drop i text ≡ c ∷ rest → read_at text i ≡ ok c
unfolding read_at
read_at-Stands text i c rest h = rw ((drop-eq-cons text i c rest h).0, read_at) refl

-- A field of `n` characters that holds `digits`: it ends with them, or a space follows.
abbrev pub EndsField : ℕ → Bytes → Bytes → Type 0
EndsField n digits rest =
    (n ≡ length digits) ⊎ ((length digits < n) × ((tail : Bytes) × (rest ≡ b' ' ∷ tail)))

digit_not_space : (c : ℕ) → IsDigit c → (c == b' ') ≡ false
digit_not_space c h = ground arith

-- One round of each loop.
module _ (text : Bytes) (i n c : ℕ) (rest : Bytes) (h : drop i text ≡ c ∷ rest) where
  pid_stops : (v : ℤ) → c ≡ b' ' → pid_loop text i (suc n) v ≡ ok v
  unfolding pid_loop
  pid_stops v e = simp (read_at-Stands text i c rest h, e)

  pid_goes :
      (v : ℕ)
      → IsDigit c
      → v * 10 + (c - b'0') < 2147483648
      → pid_loop text i (suc n) (pos v) ≡ pid_loop text (i + 1) n (pos (v * 10 + (c - b'0')))
  unfolding pid_loop
  pid_goes v d small =
      rw (read_at-Stands text i c rest h)
        (ground (arith, next_value-digit v c d, int_result-small (v * 10 + (c - b'0')) small))

  syscall_stops : (v : ℤ) → c ≡ b' ' → syscall_loop text i (suc n) v ≡ ok v
  unfolding syscall_loop
  syscall_stops v e = simp (read_at-Stands text i c rest h, e)

  syscall_char :
      (w : ℤ)
      → c ≢ b' '
      → syscall_loop text i (suc n) w ≡ syscall_loop text (i + 1) n (to_short (next_value w c))
  unfolding syscall_loop
  syscall_char w ne = rw (read_at-Stands text i c rest h) (ground arith)

  syscall_goes :
      (v : ℕ)
      → IsDigit c
      → v * 10 + (c - b'0') < 32768
      → syscall_loop text i (suc n) (pos v)
        ≡ syscall_loop text (i + 1) n (pos (v * 10 + (c - b'0')))
  syscall_goes v d small =
      syscall_char (pos v) (omega arith)
      ∙ ap (λ w. syscall_loop text (i + 1) n (to_short w)) (next_value-digit v c d)
      ∙ ap (λ w. syscall_loop text (i + 1) n w) (to_short-small (v * 10 + (c - b'0')) small)

pub pid_loop-field :
    (digits : Bytes) (n : ℕ) (text : Bytes) (i v : ℕ) (rest : Bytes)
    → drop i text ≡ digits ++ rest
    → EndsField n digits rest
    → All IsDigit digits
    → decimal v digits < 2147483648
    → pid_loop text i n (pos v) ≡ ok (pos (decimal v digits))
pid_loop-field [] zero text i v rest h e d small = unfold pid_loop in refl
pid_loop-field [] (suc n) text i v rest h (inl e) d small = absurd (omega arith)
pid_loop-field [] (suc n) text i v rest h (inr (lt, (tail, e))) d small =
    pid_stops text i n b' ' tail (h ∙ e) (pos v) refl
pid_loop-field (c ∷ cs) zero text i v rest h (inl e) d small = absurd (omega arith)
pid_loop-field (c ∷ cs) zero text i v rest h (inr e) d small = absurd (omega arith)
pid_loop-field (c ∷ cs) (suc n) text i v rest h e (dc, ds) small =
    pid_goes text i n c (cs ++ rest) h v dc (omega (arith, le-decimal cs (v * 10 + (c - b'0'))))
    ∙ pid_loop-field cs n text (i + 1) (v * 10 + (c - b'0')) rest
        (drop-eq-cons text i c (cs ++ rest) h).1 (shorter e) ds small
  where
    shorter : EndsField (suc n) (c ∷ cs) rest → EndsField n cs rest
    shorter (inl f) = inl (omega arith)
    shorter (inr (lt, t)) = inr (omega arith, t)

pub syscall_loop-field :
    (digits : Bytes) (n : ℕ) (text : Bytes) (i v : ℕ) (rest : Bytes)
    → drop i text ≡ digits ++ rest
    → EndsField n digits rest
    → All IsDigit digits
    → decimal v digits < 32768
    → syscall_loop text i n (pos v) ≡ ok (pos (decimal v digits))
syscall_loop-field [] zero text i v rest h e d small = unfold syscall_loop in refl
syscall_loop-field [] (suc n) text i v rest h (inl e) d small = absurd (omega arith)
syscall_loop-field [] (suc n) text i v rest h (inr (lt, (tail, e))) d small =
    syscall_stops text i n b' ' tail (h ∙ e) (pos v) refl
syscall_loop-field (c ∷ cs) zero text i v rest h (inl e) d small = absurd (omega arith)
syscall_loop-field (c ∷ cs) zero text i v rest h (inr e) d small = absurd (omega arith)
syscall_loop-field (c ∷ cs) (suc n) text i v rest h e (dc, ds) small =
    syscall_goes text i n c (cs ++ rest) h v dc (omega (arith, le-decimal cs (v * 10 + (c - b'0'))))
    ∙ syscall_loop-field cs n text (i + 1) (v * 10 + (c - b'0')) rest
        (drop-eq-cons text i c (cs ++ rest) h).1 (shorter e) ds small
  where
    shorter : EndsField (suc n) (c ∷ cs) rest → EndsField n cs rest
    shorter (inl f) = inl (omega arith)
    shorter (inr (lt, t)) = inr (omega arith, t)

-- Leading spaces are skipped up to another character.
pub skip_while-spaces :
    (p fuel : ℕ) (text : Bytes) (i c : ℕ) (rest : Bytes)
    → p < fuel
    → drop i text ≡ replicate p b' ' ++ c ∷ rest
    → c ≢ b' '
    → skip_while fuel text b' ' i ≡ ok (i + p)
unfolding skip_while
skip_while-spaces p zero text i c rest lt h ne = absurd (omega arith)
skip_while-spaces zero (suc fuel) text i c rest lt h ne =
    rw (read_at-Stands text i c rest h) (ground arith)
skip_while-spaces (suc p) (suc fuel) text i c rest lt h ne =
    rw (read_at-Stands text i b' ' (replicate p b' ' ++ c ∷ rest) h) (
      skip_while-spaces p fuel text (i + 1) c rest (omega arith)
        (drop-eq-cons text i b' ' (replicate p b' ' ++ c ∷ rest) h).1 ne
      ∙ ap ok (omega arith))

pub back_while_stops :
    (text : Bytes) (i c : ℕ) (rest : Bytes)
    → drop i text ≡ c ∷ rest
    → c ≢ b' '
    → back_while text b' ' i ≡ ok i
unfolding back_while
back_while_stops text zero c rest h ne = rw (read_at-Stands text 0 c rest h) (ground arith)
back_while_stops text (suc i) c rest h ne = rw (read_at-Stands text (suc i) c rest h) (ground arith)
