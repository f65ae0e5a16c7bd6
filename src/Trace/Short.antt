-- ===== src/Trace/Short.antt =====
-- Lines that are too short for their columns: what the collector makes of them.
use linux_sensors.Base.{
  ◌+◌, ◌-◌, ◌%◌, ◌^◌, ◌≤◌, ◌<◌, ◌≡◌, ◌⊎◌, [], Bytes, ok, thrown, undefined, arith, ◌++◌, ◌∙◌, ap,
  length-append, length, lt→ltb,
}
use linux_sensors.Text.{StringRef, end}
use linux_sensors.Text.Completed.{newline}
use linux_sensors.Trace.{collect_line}
use linux_sensors.Trace.References.{string_ref-ok, string_ref_outside, string_ref_wraps}

-- A line of 60 characters or less adds no record, and nothing of the text is read.
pub collect_line-short :
    (text : Bytes) (line : StringRef) → line.size ≤ 60 → collect_line text line ≡ ok []
unfolding collect_line
collect_line-short text line h = ground arith

-- A line of 61 or 62 characters ends the collection by an exception, if its text goes on up to 65
-- characters from the line's beginning on: the size of its last field wraps round.
pub collect_line-throws :
    (text : Bytes) (line : StringRef)
    → (line.size ≡ 61) ⊎ (line.size ≡ 62)
    → line.start + 65 ≤ length text
    → length text < 2 ^ 63
    → collect_line text line ≡ thrown
unfolding collect_line
collect_line-throws text line h inside fits =
    let n = (end line + 2 ^ 64 - (line.start + 63)) % 2 ^ 64 in
    let huge : 2 ^ 63 ≤ n = omega arith in
    rw (
      lt→ltb 60 line.size (omega arith),
      string_ref-ok text line.start 16 (omega arith) (omega arith),
      string_ref-ok text (line.start + 17) 5 (omega arith) (omega arith),
      string_ref-ok text (line.start + 62) 3 (omega arith) (omega arith),
      string_ref_wraps text (line.start + 63) n huge,
    )

outside :
    (text : Bytes) (line : StringRef)
    → 60 < line.size
    → end line ≤ length text
    → length text < line.start + 65
    → collect_line text line ≡ undefined
unfolding collect_line
outside text line lo inside short = rw (
  lt→ltb 60 line.size lo,
  string_ref-ok text line.start 16 (omega arith) (omega arith),
  string_ref-ok text (line.start + 17) 5 (omega arith) (omega arith),
  string_ref_outside text (line.start + 62) 3 (omega arith) (omega arith),
)

-- A line of 61 to 63 characters that is the last of its text reads outside the text, also with the
-- line end that follows it.
pub collect_line-undefined :
    (front line copy : Bytes)
    → 60 < length line
    → length line < 64
    → collect_line
        (front ++ (line ++ newline))
        (record { start = length front; size = length line; buffer = copy })
      ≡ undefined
collect_line-undefined front line copy lo hi =
    let all : length (front ++ (line ++ newline)) ≡ length front + (length line + 1) =
      length-append front (line ++ newline)
      ∙ ap (λ n. length front + n) (length-append line newline) in
    outside (front ++ (line ++ newline))
      (record { start = length front; size = length line; buffer = copy }) lo (omega (arith, all))
      (omega (arith, all, hi))
