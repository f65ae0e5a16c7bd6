-- ===== src/Trace/Whole.antt =====
-- What the collector makes of all the lines of a bulk, as a function of the lines alone.
use linux_sensors.Base.{
  ◌^◌, ◌≤◌, ◌<◌, ◌≡◌, refl, ap, ap₂, sym, ◌∙◌, List, [], ◌∷◌, ◌++◌, map, Bytes, Outcome, ok, ◌>>=◌,
  length, All, concat_map, arith,
}
use linux_sensors.Encoding.RoundTrip.{IsByte}
use linux_sensors.Text.{StringRef, end, view}
use linux_sensors.Trace.{SysParamsRecord, collect_line, collect}
use linux_sensors.Trace.Locality.{whole}
use linux_sensors.Trace.Slices.{length-slice}
use linux_sensors.Trace.Alone.{IsTraceLine, collect_line-view}
use linux_sensors.Trace.Total.{collect_line_total}

-- A line of bytes that has a shape of the trace.
abbrev pub IsReadable : Bytes → Type 0
IsReadable line = All IsByte line × IsTraceLine line

-- The records of a line that stands alone; none if it is refused.
unfoldable pub parsed : Bytes → List SysParamsRecord
parsed line = elim (collect_line line (whole line)) [ ok records ↦ records | _ ↦ [] ]

parsed_lem :
    (line : Bytes) (records : List SysParamsRecord)
    → collect_line line (whole line) ≡ ok records
    → parsed line ≡ records
unfolding parsed
parsed_lem line records h = rw (parsed, h) refl

collect_line-parsed :
    (text : Bytes) (line : StringRef)
    → length text < 2 ^ 63
    → end line ≤ length text
    → IsReadable (view text line)
    → collect_line text line ≡ ok (parsed (view text line))
collect_line-parsed text line fits inside (bytes, shape) =
    let size = length-slice text line.start line.size inside in
    let (records, h) = collect_line_total (view text line) bytes (omega (arith, size)) shape in
    collect_line-view text line inside fits shape
    ∙ h
    ∙ ap ok (sym (parsed_lem (view text line) records h))

-- A bulk whose references lie inside its string, and whose lines have a shape of the trace, is
-- collected without an exception or an undefined read, and its records are those of its lines, each
-- taken alone, in order.
pub collect-parsed :
    (text : Bytes) (lines : List StringRef)
    → length text < 2 ^ 63
    → All (λ line. end line < length text) lines
    → All IsReadable (map (view text) lines)
    → collect text lines ≡ ok (concat_map parsed (map (view text) lines))
unfolding collect
collect-parsed text [] fits inside readable = refl
collect-parsed text (line ∷ lines) fits (h, hs) (g, gs) =
    ap₂ (λ (a b : Outcome (List SysParamsRecord)). a >>= λ here. b >>= λ rest. ok (here ++ rest))
      (collect_line-parsed text line fits (omega arith) g) (collect-parsed text lines fits hs gs)
