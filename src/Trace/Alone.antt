-- ===== src/Trace/Alone.antt =====
-- What the collector makes of one line: always a record or nothing, if the line has a shape of the
-- trace.
use mathlib.Core.Path.{fun_ext}
use linux_sensors.Base.{
  ℕ, ◌+◌, ◌-◌, ◌%◌, ◌^◌, ◌≤◌, ◌<◌, ◌≡◌, ◌≢◌, ◌⊎◌, inl, inr, refl, ap, ap₂, sym, ◌∙◌, List, [], ◌∷◌,
  Bytes, false, some, Outcome, ok, ◌>>=◌, length, get_elem?, arith, take-of_le, lt→ltb, ◌==◌,
}
use linux_sensors.Text.{StringRef, end, read_at, view}
use linux_sensors.Trace.{
  SysRecord, SysParamsRecord, sys_record, set_name, sys_params_record, collect_line,
}
use linux_sensors.Trace.Short.{collect_line-short}
use linux_sensors.Trace.References.{string_ref-ok}
use linux_sensors.Trace.Locality.{whole, sys_record-slice, set_name-slice}
use linux_sensors.Trace.Slices.{length-slice}

-- A line that is too short for the collector, or one with the four columns that it reads, and another
-- character than a space behind the name.
abbrev pub IsTraceLine : Bytes → Type 0
IsTraceLine line =
    (length line ≤ 60)
    ⊎ ((65 ≤ length line)
        × ((separator : ℕ) × ((get_elem? line 16 ≡ some separator) × (separator ≢ b' '))))

unfoldable pub fields_of : Bytes → Outcome (List SysParamsRecord)
fields_of line =
    (sys_record line (record { start = 17; size = 5; buffer = [] })
        (record { start = 62; size = 3; buffer = [] })
      >>= λ base.
          set_name line (record { start = 0; size = 16; buffer = [] })
            (record { base = base; name = []; arg = [] }))
    >>= λ r. ok (r ∷ [])

module _ (text : Bytes) (line : StringRef) (inside : end line ≤ length text) (wide : 65 ≤ line.size)
    (fits : length text < 2 ^ 63) (c : ℕ) (reads : read_at (view text line) 16 ≡ ok c)
    (visible : (c == b' ') ≡ false) where
  -- The fields that are read of the line.
  pub fields_lem : collect_line text line ≡ fields_of (view text line)
  unfolding collect_line sys_params_record fields_of
  fields_lem =
      let n = (end line + 2 ^ 64 - (line.start + 63)) % 2 ^ 64 in
      let exact : n ≡ line.size - 63 = omega arith in
      simp
        (
          lt→ltb 60 line.size (omega arith),
          string_ref-ok text line.start 16 (omega arith) (omega arith),
          string_ref-ok text (line.start + 17) 5 (omega arith) (omega arith),
          string_ref-ok text (line.start + 62) 3 (omega arith) (omega arith),
          string_ref-ok text (line.start + 63) n (omega (arith, exact)) (omega (arith, exact)),
        )
        (ap₂
          (λ (o : Outcome SysRecord) (f : SysRecord → Outcome SysParamsRecord).
            (o >>= f) >>= λ r. ok (r ∷ []))
          (sys_record-slice text line.start line.size inside wide _ _ [] [])
          (fun_ext (λ base.
            let (name, (a, b)) =
              set_name-slice text line.start line.size inside wide c reads visible _ []
                (record { base = base; name = []; arg = [] }) in
            a ∙ sym b)))

pub view-whole : (line : Bytes) → view line (whole line) ≡ line
view-whole line = take-of_le (length line) line (omega arith)

pub read_at-get : (line : Bytes) (i c : ℕ) → get_elem? line i ≡ some c → read_at line i ≡ ok c
unfolding read_at
read_at-get line i c h = rw (read_at, h) refl

-- What is made of a line that has a shape of the trace and lies inside a string of less than 2 ^ 63
-- characters depends on its own characters alone, and not on that string.
pub collect_line-view :
    (text : Bytes) (line : StringRef)
    → end line ≤ length text
    → length text < 2 ^ 63
    → IsTraceLine (view text line)
    → collect_line text line ≡ collect_line (view text line) (whole (view text line))
collect_line-view text line inside fits (inl short) =
    let size = length-slice text line.start line.size inside in
    collect_line-short text line (omega (arith, size))
    ∙ sym (collect_line-short (view text line) (whole (view text line)) short)
collect_line-view text line inside fits (inr (wide, (c, (here, visible)))) =
    let l = view text line in
    let size = length-slice text line.start line.size inside in
    let reads = read_at-get l 16 c here in
    let same = view-whole l in
    let blank : (c == b' ') ≡ false = ground (arith, visible) in
    fields_lem text line inside (omega (arith, size)) fits c reads blank
    ∙ sym (
        fields_lem l (whole l) (omega arith) wide (omega (arith, size)) c
          (ap (λ t. read_at t 16) same ∙ reads) blank
        ∙ ap fields_of same)
