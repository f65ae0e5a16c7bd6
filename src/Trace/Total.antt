-- ===== src/Trace/Total.antt =====
-- The collector returns on every line that has a shape of the trace: no number overflows, and no
-- character is read outside the line.
use linux_sensors.Base.{
  ℕ, zero, suc, ◌+◌, ◌*◌, ◌^◌, ◌≤◌, ◌<◌, ◌≡◌, inl, inr, refl, ap, sym, ◌∙◌, List, [], ◌∷◌, Bytes,
  true, false, some, Outcome, ok, ◌>>=◌, length, get_elem?, All, arith, ◌==◌, Bool-cases,
}
use linux_sensors.Base.Int.{ℤ, pos, negsuc, pos_part, neg_part, to_short, int_result}
use linux_sensors.Number.{next_value}
use linux_sensors.Encoding.RoundTrip.{IsByte}
use linux_sensors.Text.{read_at}
use linux_sensors.Trace.{
  SysRecord, SysParamsRecord, pid_loop, set_pid, syscall_loop, set_syscall, sys_record, set_name,
  collect_line,
}
use linux_sensors.Trace.Short.{collect_line-short}
use linux_sensors.Trace.Reads.{drop_cons}
use linux_sensors.Trace.Locality.{whole, set_name-slice}
use linux_sensors.Trace.Alone.{IsTraceLine, fields_of, fields_lem, view-whole, read_at-get}

abbrev magnitude : ℤ → ℕ
magnitude v = pos_part v + neg_part v

next_value_grows : (v : ℤ) (c : ℕ) → c < 256 → magnitude (next_value v c) ≤ 10 * magnitude v + 176
next_value_grows (pos n) c h = ground arith
next_value_grows (negsuc n) c h = ground arith

int_result_small : (v : ℤ) → magnitude v < 2147483648 → int_result v ≡ ok v
int_result_small (pos n) h = ground arith
int_result_small (negsuc n) h = ground arith

All-get : (text : Bytes) (i c : ℕ) → All IsByte text → get_elem? text i ≡ some c → c < 256
All-get [] i c h e = cc
All-get (x ∷ xs) zero c (h, hs) e = let same : x ≡ c = cc in omega (arith, same)
All-get (x ∷ xs) (suc i) c (h, hs) e = All-get xs i c hs e

read_byte :
    (text : Bytes) (i : ℕ)
    → All IsByte text
    → i < length text
    → (c : ℕ) × ((read_at text i ≡ ok c) × (c < 256))
read_byte text i bytes h =
    let (c, e, _) = drop_cons text i h in (c, (read_at-get text i c e, All-get text i c bytes e))

-- A number stays an `int` for so many rounds more.
abbrev Fits : ℕ → ℕ → Type 0
Fits zero m = m ≤ 2147483647
Fits (suc rounds) m = Fits rounds (10 * m + 176)

Fits-mono : (rounds m n : ℕ) → m ≤ n → Fits rounds n → Fits rounds m
Fits-mono zero m n h f = omega arith
Fits-mono (suc rounds) m n h f = Fits-mono rounds (10 * m + 176) (10 * n + 176) (omega arith) f

Fits-now : (rounds m : ℕ) → Fits rounds m → m < 2147483648
Fits-now zero m f = omega arith
Fits-now (suc rounds) m f = omega (arith, Fits-now rounds (10 * m + 176) f)

module _ (text : Bytes) (k i c : ℕ) (reads : read_at text i ≡ ok c) where
  pid_loop_go :
      (v w : ℤ)
      → (c == b' ') ≡ false
      → int_result (next_value v c) ≡ ok w
      → pid_loop text i (suc k) v ≡ pid_loop text (i + 1) k w
  unfolding pid_loop
  pid_loop_go v w e h =
      let onward : Outcome ℤ → Outcome ℤ = λ o. o >>= λ next. pid_loop text (i + 1) k next in
      ap
        (λ (o : Outcome ℕ). o >>= λ d. elim (d == b' ') as (λ _. Outcome ℤ) [
          | true ↦ ok v
          | false ↦ onward (int_result (next_value v d))
        ])
        reads
      ∙ ap
          (λ b. elim b as (λ _. Outcome ℤ) [
            | true ↦ ok v
            | false ↦ onward (int_result (next_value v c))
          ])
          e
      ∙ ap onward h

  pid_loop_stop : (v : ℤ) → (c == b' ') ≡ true → pid_loop text i (suc k) v ≡ ok v
  unfolding pid_loop
  pid_loop_stop v e = ground arith

module _ (text : Bytes) (bytes : All IsByte text) where
  pid_loop_total :
      (k i : ℕ) (v : ℤ)
      → i + k ≤ length text
      → Fits k (magnitude v)
      → (w : ℤ) × (pid_loop text i k v ≡ ok w)
  pid_loop_total zero i v inside small = (v, unfold pid_loop in refl)
  pid_loop_total (suc k) i v inside small =
      let (c, (reads, byte)) = read_byte text i bytes (omega arith) in
      let small' =
        Fits-mono k (magnitude (next_value v c)) (10 * magnitude v + 176)
          (next_value_grows v c byte) small in
      let fits =
        int_result_small (next_value v c) (Fits-now k (magnitude (next_value v c)) small') in
      elim (Bool-cases (c == b' ')) [
        | inl e ↦ (v, pid_loop_stop text k i c reads v e)
        | inr e ↦
            let (w, onward) = pid_loop_total k (i + 1) (next_value v c) (omega arith) small' in
            (w, pid_loop_go text k i c reads v (next_value v c) e fits ∙ onward)
      ]

  syscall_loop_total :
      (k i : ℕ) (v : ℤ) → i + k ≤ length text → (w : ℤ) × (syscall_loop text i k v ≡ ok w)
  unfolding syscall_loop
  syscall_loop_total zero i v inside = (v, refl)
  syscall_loop_total (suc k) i v inside =
      let (c, (reads, byte)) = read_byte text i bytes (omega arith) in
      elim (Bool-cases (c == b' ')) [
        | inl e ↦ (v, ground arith)
        | inr e ↦
            let (w, onward) =
              syscall_loop_total k (i + 1) (to_short (next_value v c)) (omega arith) in
            (w, ground arith)
      ]

fields_of_ok :
    (line : Bytes) (pid syscall : ℤ) (name : Bytes)
    → pid_loop line 17 5 (pos 0) ≡ ok pid
    → syscall_loop line 62 3 (pos 0) ≡ ok syscall
    → set_name line
        (record { start = 0; size = 16; buffer = [] })
        (record { base = record { pid = pid; syscall = syscall }; name = []; arg = [] })
      ≡ ok (record { base = record { pid = pid; syscall = syscall }; name = name; arg = [] })
    → fields_of line
      ≡ ok (record { base = record { pid = pid; syscall = syscall }; name = name; arg = [] } ∷ [])
unfolding fields_of sys_record set_pid set_syscall
fields_of_ok line pid syscall name p q n = simp (p, q, n)

-- On a line of less than 2 ^ 63 bytes that has a shape of the trace, the collector returns: no number
-- overflows, nothing is thrown, and no character is read outside the line.
pub collect_line_total :
    (line : Bytes)
    → All IsByte line
    → length line < 2 ^ 63
    → IsTraceLine line
    → (records : List SysParamsRecord) × (collect_line line (whole line) ≡ ok records)
collect_line_total line bytes fits (inl short) = ([], collect_line-short line (whole line) short)
collect_line_total line bytes fits (inr (wide, (c, (here, visible)))) =
    let same = view-whole line in
    let reads = read_at-get line 16 c here in
    let blank : (c == b' ') ≡ false = ground (arith, visible) in
    let inside : 0 + length line ≤ length line = omega arith in
    let (pid, p) = pid_loop_total line bytes 5 17 (pos 0) (omega arith) (omega arith) in
    let (syscall, q) = syscall_loop_total line bytes 3 62 (pos 0) (omega arith) in
    let base : SysRecord = record { pid = pid; syscall = syscall } in
    let (name, (_, n)) =
      set_name-slice line 0 (length line) inside wide c (ap (λ t. read_at t 16) same ∙ reads) blank
        [] [] (record { base = base; name = []; arg = [] }) in
    (
      record { base = base; name = name; arg = [] } ∷ [],
      fields_lem line (whole line) (omega arith) wide fits c (ap (λ t. read_at t 16) same ∙ reads)
            blank
          ∙ ap fields_of same
          ∙ fields_of_ok line pid syscall name p q (
              ap
                (λ t.
                  set_name t (record { start = 0; size = 16; buffer = [] })
                    (record { base = base; name = []; arg = [] }))
                (sym same)
              ∙ n),
    )
