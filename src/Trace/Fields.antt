-- ===== src/Trace/Fields.antt =====
-- What the collectors make of one line of `trace_pipe`: its columns, and lines that are too short.
use linux_sensors.Base.{
  ℕ, ◌+◌, ◌-◌, ◌%◌, ◌^◌, ◌≤◌, ◌<◌, ◌≡◌, ◌≢◌, refl, ap, sym, ◌∙◌, [], ◌∷◌, ◌++◌, append_assoc, Bytes,
  ok, ◌>>=◌, All, arith, length, length-replicate, replicate, take, drop, slice, lt→ltb, drop-drop,
  drop-append_length, take-append_length,
}
use linux_sensors.Base.Int.{pos}
use linux_sensors.Text.{StringRef, end}
use linux_sensors.Number.Decimal.{IsDigit, decimal}
use linux_sensors.Trace.{
  SysRecord, SysParamsRecord, set_pid, set_syscall, sys_record, between, set_name,
  sys_params_record, collect_line, skip_while, syscall_loop,
}
use linux_sensors.Trace.Reads.{
  EndsField, pid_loop-field, syscall_loop-field, skip_while-spaces, back_while_stops,
}
use linux_sensors.Trace.References.{between-ok, string_ref-ok}

-- The columns of a line of at least 65 characters, inside the text: from 0 the process name, right
-- justified to column 16; there another character than a space; from 17 the digits of the process id,
-- up to a space or column 22; from 62 those of the system call, up to a space or column 65.
pub record Columns (text : Bytes) (line : StringRef) (name pid syscall : Bytes) : Type 0 where
  pub pad : ℕ
  pub first : ℕ
  pub others : Bytes
  pub is_name : name ≡ first ∷ others
  pub visible : first ≢ b' '
  pub name_width : pad + length name ≡ 16
  pub separator : ℕ
  pub no_space : separator ≢ b' '
  pub after_name : Bytes
  pub name_column : drop line.start text ≡ (replicate pad b' ' ++ name) ++ separator ∷ after_name
  pub after_pid : Bytes
  pub pid_column : drop (line.start + 17) text ≡ pid ++ after_pid
  pub pid_ends : EndsField 5 pid after_pid
  pub pid_digits : All IsDigit pid
  pub pid_fits : decimal 0 pid < 2147483648
  pub after_syscall : Bytes
  pub syscall_column : drop (line.start + 62) text ≡ syscall ++ after_syscall
  pub syscall_ends : EndsField 3 syscall after_syscall
  pub syscall_digits : All IsDigit syscall
  pub syscall_fits : decimal 0 syscall < 32768
  pub long_enough : 65 ≤ line.size
  pub inside : end line ≤ length text
  pub text_fits : length text < 2 ^ 63

-- What a record of the line holds.
abbrev pub record_of : Bytes → Bytes → Bytes → SysParamsRecord
record_of name pid syscall = record {
  base = record { pid = pos (decimal 0 pid); syscall = pos (decimal 0 syscall) };
  name = name;
  arg = [];
}

module _ {text : Bytes} {line : StringRef} {name pid syscall : Bytes}
    (c : Columns text line name pid syscall) where
  open c use {pad, first, others, separator, after_name}

  abbrev name_ref : StringRef
  name_ref = record { start = line.start; size = 16; buffer = slice text line.start 16 }

  abbrev pid_ref : StringRef
  pid_ref = record { start = line.start + 17; size = 5; buffer = slice text (line.start + 17) 5 }

  abbrev syscall_ref : StringRef
  syscall_ref = record {
    start = line.start + 62;
    size = 3;
    buffer = slice text (line.start + 62) 3;
  }

  set_pid-columns :
      set_pid text pid_ref (record { pid = pos 0; syscall = pos 0 })
      ≡ ok (record { pid = pos (decimal 0 pid); syscall = pos 0 })
  unfolding set_pid
  set_pid-columns = rw (
      pid_loop-field pid 5 text (line.start + 17) 0 c.after_pid c.pid_column c.pid_ends c.pid_digits
        c.pid_fits)

  set_syscall-columns :
      (r : SysRecord)
      → r.syscall ≡ pos 0
      → set_syscall text syscall_ref r ≡ ok (record r { syscall = pos (decimal 0 syscall) })
  unfolding set_syscall
  set_syscall-columns r e =
      ap (λ v. syscall_loop text (line.start + 62) 3 v >>= λ s. ok (record r { syscall = s })) e
      ∙ ap (λ o. o >>= λ s. ok (record r { syscall = s }))
          (syscall_loop-field syscall 3 text (line.start + 62) 0 c.after_syscall c.syscall_column
            c.syscall_ends c.syscall_digits c.syscall_fits)

  sys_record-columns :
      sys_record text pid_ref syscall_ref
      ≡ ok (record { pid = pos (decimal 0 pid); syscall = pos (decimal 0 syscall) })
  unfolding sys_record
  sys_record-columns =
      ap (λ o. o >>= λ r. set_syscall text syscall_ref r) set_pid-columns
      ∙ set_syscall-columns (record { pid = pos (decimal 0 pid); syscall = pos 0 }) refl

  -- The name begins behind the padding and ends before the separator.
  name_begins : drop (line.start + pad) text ≡ name ++ separator ∷ after_name
  name_begins =
      sym (drop-drop pad line.start text)
      ∙ ap (drop pad)
          (c.name_column ∙ append_assoc (replicate pad b' ') name (separator ∷ after_name))
      ∙ ap (λ k. drop k (replicate pad b' ' ++ (name ++ separator ∷ after_name)))
          (sym (length-replicate pad b' '))
      ∙ drop-append_length (replicate pad b' ') (name ++ separator ∷ after_name)

  name_ends : drop (line.start + 16) text ≡ separator ∷ after_name
  name_ends =
      ap (λ k. drop k text) {x = line.start + 16} {y = (line.start + pad) + length name}
        (omega (arith, c.name_width))
      ∙ sym (drop-drop (length name) (line.start + pad) text)
      ∙ ap (drop (length name)) name_begins
      ∙ drop-append_length name (separator ∷ after_name)

  columns_inside : line.start + 65 ≤ length text
  columns_inside = omega (arith, c.long_enough, c.inside)

  name_skipped : skip_while (length text) text b' ' line.start ≡ ok (line.start + pad)
  name_skipped =
      skip_while-spaces pad (length text) text line.start first (others ++ separator ∷ after_name)
        (omega (arith, columns_inside, c.name_width))
        (c.name_column
          ∙ append_assoc (replicate pad b' ') name (separator ∷ after_name)
          ∙ ap (λ t. replicate pad b' ' ++ (t ++ separator ∷ after_name)) c.is_name)
        c.visible

  name_between : between text (line.start + pad) (line.start + 16) ≡ ok name
  name_between =
      between-ok text (line.start + pad) (line.start + 16) (omega (arith, c.name_width))
        (omega (arith, columns_inside))
      ∙ ap ok (
          ap (λ k. take k (drop (line.start + pad) text)) {x = line.start + 16 - (line.start + pad)}
            {y = length name} (omega (arith, c.name_width))
          ∙ ap (take (length name)) name_begins
          ∙ take-append_length name (separator ∷ after_name))

  set_name-columns :
      (r : SysParamsRecord) → set_name text name_ref r ≡ ok (record r { name = name })
  unfolding set_name
  set_name-columns r = rw (
    name_skipped,
    back_while_stops text (line.start + 16) separator after_name name_ends c.no_space,
    name_between,
  )

  sys_params_record-columns :
      (syscall_args : StringRef)
      → sys_params_record text name_ref pid_ref syscall_ref syscall_args
        ≡ ok (record_of name pid syscall)
  unfolding sys_params_record
  sys_params_record-columns syscall_args =
      ap (λ o. o >>= λ base. set_name text name_ref (record { base = base; name = []; arg = [] }))
        sys_record-columns
      ∙ set_name-columns _

  -- A line with these columns adds the one record of their name and numbers, whatever stands in
  -- the other columns and behind the line.
  pub collect_line-columns : collect_line text line ≡ ok (record_of name pid syscall ∷ [])
  unfolding collect_line
  collect_line-columns =
      let n = (end line + 2 ^ 64 - (line.start + 63)) % 2 ^ 64 in
      let exact : n ≡ line.size - 63 = omega (arith, c.long_enough, c.inside, c.text_fits) in
      rw (
        lt→ltb 60 line.size (omega (arith, c.long_enough)),
        string_ref-ok text line.start 16 (omega arith) (omega (arith, columns_inside)),
        string_ref-ok text (line.start + 17) 5 (omega arith) (omega (arith, columns_inside)),
        string_ref-ok text (line.start + 62) 3 (omega arith) (omega (arith, columns_inside)),
        string_ref-ok text (line.start + 63) n (omega (arith, exact, c.inside, c.text_fits))
            (omega (arith, exact, c.long_enough, c.inside)),
        sys_params_record-columns
            (record { start = line.start + 63; size = n; buffer = slice text (line.start + 63) n }),
      )
