-- ===== src/Trace/Locality.antt =====
-- The collector reads nothing but its line: what it makes of a line does not depend on the string
-- that the line stands in.
use linux_sensors.Base.{
  ℕ, zero, suc, ◌+◌, ◌-◌, ◌≤◌, ◌<◌, ◌≡◌, inl, inr, refl, ap, ap₂, ◌∙◌, [], Bytes, true, false,
  Outcome, ok, ◌>>=◌, length, slice, arith, ◌==◌, Bool-cases,
}
use mathlib.Core.Path.{fun_ext}
use linux_sensors.Base.Int.{ℤ, pos}
use linux_sensors.Text.{StringRef, read_at}
use linux_sensors.Trace.{
  SysRecord, SysParamsRecord, set_pid, set_syscall, sys_record, skip_while, back_while, set_name,
}
use linux_sensors.Trace.References.{between-ok}
use linux_sensors.Trace.Slices.{
  slice-slice, length-slice, pid_loop-slice, read_at-slice, read_inside, syscall_loop-slice,
}

-- One round of `skip_while`.
module _ (text : Bytes) (fuel i c : ℕ) (reads : read_at text i ≡ ok c) where
  skip_while_go :
      (c == b' ') ≡ true → skip_while (suc fuel) text b' ' i ≡ skip_while fuel text b' ' (i + 1)
  unfolding skip_while
  skip_while_go e = ground arith

  skip_while_stop : (c == b' ') ≡ false → skip_while (suc fuel) text b' ' i ≡ ok i
  unfolding skip_while
  skip_while_stop e = ground arith

-- A line with another character than a space in column 16.
module _ (text : Bytes) (s n : ℕ) (inside : s + n ≤ length text) (wide : 16 < n) (c : ℕ)
    (reads : read_at (slice text s n) 16 ≡ ok c) (visible : (c == b' ') ≡ false) where
  -- Both loops stop at the same column, which is 16 at most.
  skip_while-slice :
      (k f g i : ℕ)
      → i + k ≡ 16
      → k < f
      → k < g
      → (b : ℕ) × ((b ≤ 16)
          × (skip_while f text b' ' (s + i) ≡ ok (s + b))
          × (skip_while g (slice text s n) b' ' i ≡ ok b))
  skip_while-slice k zero g i h p q = absurd (omega arith)
  skip_while-slice k (suc f) zero i h p q = absurd (omega arith)
  skip_while-slice zero (suc f) (suc g) i h p q =
      let at : i ≡ 16 = omega arith in
      let here = ap (read_at (slice text s n)) at ∙ reads in
      (
        i,
        (
          omega arith,
          skip_while_stop text f (s + i) c (read_at-slice text s n inside i (omega arith) ∙ here)
              visible,
          skip_while_stop (slice text s n) g i c here visible,
        ),
      )
  skip_while-slice (suc k) (suc f) (suc g) i h p q =
      let (d, here) =
        read_inside (slice text s n) i (omega (arith, length-slice text s n inside)) in
      let there = read_at-slice text s n inside i (omega arith) ∙ here in
      elim (Bool-cases (d == b' ')) [
        | inl e ↦
            let (b, (le, x, y)) =
              skip_while-slice k f g (i + 1) (omega arith) (omega arith) (omega arith) in
            (
              b,
              (
                le,
                skip_while_go text f (s + i) d there e
                    ∙ ap (skip_while f text b' ') {x = s + i + 1} {y = s + (i + 1)} (omega arith)
                    ∙ x,
                skip_while_go (slice text s n) g i d here e ∙ y,
              ),
            )
        | inr e ↦ (
          i,
          (
            omega arith,
            skip_while_stop text f (s + i) d there e,
            skip_while_stop (slice text s n) g i d here e,
          ),
        )
      ]

back_while_here :
    (text : Bytes) (i c : ℕ)
    → read_at text i ≡ ok c
    → (c == b' ') ≡ false
    → back_while text b' ' i ≡ ok i
unfolding back_while
back_while_here text zero c h e = ground arith
back_while_here text (suc i) c h e = ground arith

-- A line as a string of its own.
abbrev pub whole : Bytes → StringRef
whole line = record { start = 0; size = length line; buffer = [] }

module _ (text : Bytes) (s n : ℕ) (inside : s + n ≤ length text) (wide : 65 ≤ n) where
  pub sys_record-slice :
      (pid_buffer syscall_buffer pid_buffer' syscall_buffer' : Bytes)
      → sys_record text
          (record { start = s + 17; size = 5; buffer = pid_buffer })
          (record { start = s + 62; size = 3; buffer = syscall_buffer })
        ≡ sys_record
            (slice text s n)
            (record { start = 17; size = 5; buffer = pid_buffer' })
            (record { start = 62; size = 3; buffer = syscall_buffer' })
  unfolding sys_record set_pid set_syscall
  sys_record-slice pb sb pb' sb' =
      ap₂
        (λ (o : Outcome ℤ) (f : ℤ → Outcome ℤ).
          (◌>>=◌ {B = SysRecord} o (λ pid. ok (record { pid = pid; syscall = pos 0 }))) >>= λ r.
          f r.syscall >>= λ syscall. ok (record r { syscall = syscall }))
        (pid_loop-slice text s n inside 5 17 (pos 0) (omega arith))
        (fun_ext (λ v. syscall_loop-slice text s n inside 3 62 v (omega arith)))

  module _ (c : ℕ) (reads : read_at (slice text s n) 16 ≡ ok c)
      (visible : (c == b' ') ≡ false) where
    pub set_name-slice :
        (buffer buffer' : Bytes) (r : SysParamsRecord)
        → (name : Bytes) × ((set_name text (record { start = s; size = 16; buffer = buffer }) r
              ≡ ok (record r { name = name }))
            × (set_name (slice text s n) (record { start = 0; size = 16; buffer = buffer' }) r
                ≡ ok (record r { name = name })))
    unfolding set_name
    set_name-slice buffer buffer' r =
        let wide' : 16 < n = omega arith in
        let size = length-slice text s n inside in
        let (b, (le, x, y)) =
          skip_while-slice text s n inside wide' c reads visible 16 (length text)
            (length (slice text s n)) 0 refl (omega arith) (omega (arith, size)) in
        let x' = ap (skip_while (length text) text b' ') {x = s} {y = s + 0} (omega arith) ∙ x in
        let there = read_at-slice text s n inside 16 wide' ∙ reads in
        (
          slice (slice text s n) b (16 - b),
          (
            simp
                (
                  x',
                  back_while_here text (s + 16) c there visible,
                  between-ok text (s + b) (s + 16) (omega arith) (omega arith),
                )
                (ap (λ name. ok (record r { name = name }))
                  (ap (slice text (s + b)) {x = s + 16 - (s + b)} {y = 16 - b} (omega arith)
                    ∙ slice-slice text s n inside b (16 - b) (omega arith))),
            simp (
              y,
              back_while_here (slice text s n) 16 c reads visible,
              between-ok (slice text s n) b 16 le (omega (arith, size)),
            ),
          ),
        )
