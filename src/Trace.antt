-- ===== src/Trace.antt =====
-- The records of include/sensor/trace/sys_record.h and sys_params_record.h, and the collectors of
-- syscalls.h and syscall_params.h, which cut a trace line into the fields of a record.
pub mod Reads
pub mod References
pub mod Short
pub mod Fields
pub mod Slices
pub mod Locality
pub mod Alone
pub mod Total
pub mod Whole
use linux_sensors.Base.{
  ℕ, zero, suc, ◌+◌, ◌-◌, ◌%◌, ◌^◌, List, [], ◌∷◌, ◌++◌, Bytes, ltb, leb, ◌==◌, if◌then◌else◌,
  length, slice, Outcome, ok, thrown, undefined, ◌>>=◌, true, false,
}
use linux_sensors.Base.Int.{ℤ, pos, to_short, int_result}
use linux_sensors.Text.{StringRef, end, read_at, string_ref}
use linux_sensors.Number.{next_value}

-- `class SysRecord`.
pub record SysRecord : Type 0 where
  pub pid : ℤ
  pub syscall : ℤ

-- `class SysParamsRecord`, over its base class.
pub record SysParamsRecord : Type 0 where
  pub base : SysRecord
  pub name : Bytes
  pub arg : Bytes

-- The loop of `set_pid` over the `n` characters from `begin` on.
unfoldable pub pid_loop : Bytes → ℕ → ℕ → ℤ → Outcome ℤ
unfolding read_at
pid_loop text begin zero pid = ok pid
pid_loop text begin (suc n) pid = do
  c ← read_at text begin
  elim (c == b' ') [
    | true ↦ ok pid
    | false ↦ do next ← int_result (next_value pid c); pid_loop text (begin + 1) n next
  ]

unfoldable pub set_pid : Bytes → StringRef → SysRecord → Outcome SysRecord
unfolding pid_loop
set_pid text ref r = do pid ← pid_loop text ref.start ref.size r.pid; ok (record r { pid = pid })

-- The loop of `set_syscall`; the number is stored in a `short`.
unfoldable pub syscall_loop : Bytes → ℕ → ℕ → ℤ → Outcome ℤ
unfolding read_at
syscall_loop text begin zero syscall = ok syscall
syscall_loop text begin (suc n) syscall = do
  c ← read_at text begin
  elim (c == b' ') [
    | true ↦ ok syscall
    | false ↦ syscall_loop text (begin + 1) n (to_short (next_value syscall c))
  ]

unfoldable pub set_syscall : Bytes → StringRef → SysRecord → Outcome SysRecord
unfolding syscall_loop
set_syscall text ref r = do
  syscall ← syscall_loop text ref.start ref.size r.syscall
  ok (record r { syscall = syscall })

-- The constructor from the two fields of a line.
unfoldable pub sys_record : Bytes → StringRef → StringRef → Outcome SysRecord
unfolding set_pid set_syscall
sys_record text pid syscall = do
  r ← set_pid text pid (record { pid = pos 0; syscall = pos 0 })
  set_syscall text syscall r

-- `while (*begin == c) ++begin`, and `while (*begin != c) ++begin`. The fuel is the length of the
-- string: a loop that has read all of it reads outside.
unfoldable pub skip_while : ℕ → Bytes → ℕ → ℕ → Outcome ℕ
unfolding read_at
skip_while zero text c begin = undefined
skip_while (suc fuel) text c begin = do
  d ← read_at text begin
  elim (d == c) [ true ↦ skip_while fuel text c (begin + 1) | false ↦ ok begin ]

unfoldable pub skip_until : ℕ → Bytes → ℕ → ℕ → Outcome ℕ
unfolding read_at
skip_until zero text c begin = undefined
skip_until (suc fuel) text c begin = do
  d ← read_at text begin
  elim (d == c) [ true ↦ ok begin | false ↦ skip_until fuel text c (begin + 1) ]

-- `while (*end == c) --end`, and `while (*end != c) --end`; before the string the read is undefined.
unfoldable pub back_while : Bytes → ℕ → ℕ → Outcome ℕ
unfolding read_at
back_while text c zero = do d ← read_at text 0; elim (d == c) [ true ↦ undefined | false ↦ ok 0 ]
back_while text c (suc at) = do
  d ← read_at text (suc at)
  elim (d == c) [ true ↦ back_while text c at | false ↦ ok (suc at) ]

unfoldable pub back_until : Bytes → ℕ → ℕ → Outcome ℕ
unfolding read_at
back_until text c zero = do d ← read_at text 0; elim (d == c) [ true ↦ ok 0 | false ↦ undefined ]
back_until text c (suc at) = do
  d ← read_at text (suc at)
  elim (d == c) [ true ↦ ok (suc at) | false ↦ back_until text c at ]

-- `std::string(begin, end)` of two iterators into the string.
unfoldable pub between : Bytes → ℕ → ℕ → Outcome Bytes
between text begin last =
    if ltb last begin
    then thrown
    else if leb last (length text)
    then ok (slice text begin (last - begin))
    else undefined

unfoldable pub set_name : Bytes → StringRef → SysParamsRecord → Outcome SysParamsRecord
set_name text name r = do
  begin ← skip_while (length text) text b' ' name.start
  last ← back_while text b' ' (end name)
  chars ← between text begin last
  ok (record r { name = chars })

unfoldable pub set_arg : Bytes → StringRef → SysParamsRecord → Outcome SysParamsRecord
set_arg text arg r = do
  begin ← skip_until (length text) text b'(' arg.start
  last ← back_until text b')' (end arg)
  chars ← between text begin (last + 1)
  ok (record r { arg = chars })

-- The constructor from the fields of a line, in which the call of `set_arg` is commented out.
unfoldable pub sys_params_record :
    Bytes → StringRef → StringRef → StringRef → StringRef → Outcome SysParamsRecord
sys_params_record text name pid syscall arg = do
  base ← sys_record text pid syscall
  set_name text name (record { base = base; name = []; arg = [] })

-- The body of the loop of `SyscallsParams::collect`: the fields of one line, and the record that
-- `data.append` builds from them; nothing for a line of 60 characters or less. `end - param_it` is
-- converted to size_t.
unfoldable pub collect_line : Bytes → StringRef → Outcome (List SysParamsRecord)
collect_line text line =
    let fields = do
      name ← string_ref text line.start 16
      pid ← string_ref text (line.start + 17) 5
      syscall ← string_ref text (line.start + 62) 3
      args ← string_ref text (line.start + 63) ((end line + 2 ^ 64 - (line.start + 63)) % 2 ^ 64)
      r ← sys_params_record text name pid syscall args
      ok (r ∷ [])
    in if ltb 60 line.size then fields else ok []

-- The records that the lines of one bulk add, in order.
unfoldable pub collect : Bytes → List StringRef → Outcome (List SysParamsRecord)
unfolding collect_line
collect text [] = ok []
collect text (line ∷ lines) = do
  here ← collect_line text line
  rest ← collect text lines
  ok (here ++ rest)

-- `Syscalls::collect`, which takes the two numbers only.
unfoldable pub collect_line_numbers : Bytes → StringRef → Outcome (List SysRecord)
collect_line_numbers text line =
    let fields = do
      pid ← string_ref text (line.start + 17) 5
      syscall ← string_ref text (line.start + 62) 3
      r ← sys_record text pid syscall
      ok (r ∷ [])
    in if ltb 60 line.size then fields else ok []

unfoldable pub collect_numbers : Bytes → List StringRef → Outcome (List SysRecord)
unfolding collect_line_numbers
collect_numbers text [] = ok []
collect_numbers text (line ∷ lines) = do
  here ← collect_line_numbers text line
  rest ← collect_numbers text lines
  ok (here ++ rest)
