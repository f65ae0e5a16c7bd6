-- ===== src/Sensor/Reader/Cuts.antt =====
-- The references of the reader's bulks: each lies inside the string of its bulk.
use linux_sensors.Base.{
  lengths, ℕ, zero, suc, ◌+◌, ◌^◌, ◌≤◌, ◌<◌, ◌≡◌, inl, inr, ap, sym, subst, ◌∙◌, List, [], ◌++◌,
  Bytes, Bool, true, false, some, Bool-cases, some-injective, length, length-append, length-take,
  length-drop, All, All-append, arith,
}
use linux_sensors.Text.{end, split_string}
use linux_sensors.Text.Lines.{carried, IsSplit, split_string-IsSplit}
use linux_sensors.Text.Completed.{newline, remainder, remainder-newline, length-remainder}
use linux_sensors.Sensor.Reader.{
  EventsBulk, TracePipe, Reader, read_chunk, round_text, read_bulk, read_bulks, read_all,
  read_buffer_size, bulk_capacity,
}
use linux_sensors.Sensor.Reader.Rounds.{read_bulks_end, read_bulks_go, round_last, read_more}

pub record IsCut (bulk : EventsBulk) : Type 0 where
  pub inside : All (λ line. end line < length bulk.buffer) bulk.lines
  pub fits : length bulk.buffer < 2 ^ 63

-- The bytes that a reader holds or has to read.
abbrev pub to_come : Reader → ℕ
to_come r = length r.last_line + length r.pipe.rest

read_chunk-length :
    (n : ℕ) (pipe : TracePipe)
    → length (read_chunk n pipe).0 + length (read_chunk n pipe).1.rest ≤ length pipe.rest
unfolding read_chunk
read_chunk-length n pipe = ground (arith, length-take n pipe.rest, length-drop n pipe.rest)

length-carried : (rest : Bytes) → length (carried rest) ≤ length rest
length-carried rest = ground arith

round_short :
    (last line : Bytes) (ended : Bool)
    → length (round_text last line ended) ≤ length last + length line + 1
unfolding round_text
round_short last line true = grind lengths
round_short last line false = grind lengths

-- What a round carries to the next one is no longer than what it was given.
round_carries :
    (last line : Bytes) (ended : Bool)
    → length (carried (remainder [] (round_text last line ended))) ≤ length last + length line
unfolding round_text
round_carries last line true = rw (remainder-newline (last ++ line) []) (omega arith)
round_carries last line false = omega (
  arith,
  length-carried (remainder [] (last ++ line)),
  length-remainder (last ++ line) [],
  length-append last line,
)

abbrev pub AllCut : ℕ → List EventsBulk × Reader → Type 0
AllCut size (bulks, r) = All IsCut bulks × (to_come r ≤ size)

read_bulk-IsCut :
    (n : ℕ) (r : Reader)
    → to_come r < 2 ^ 62
    → IsCut (read_bulk n r).0 × (to_come (read_bulk n r).1 ≤ to_come r)
unfolding read_bulk
read_bulk-IsCut n r small =
    let (line, pipe) = read_chunk n r.pipe in
    let whole = round_text r.last_line line pipe.eof in
    let chunk = read_chunk-length n r.pipe in
    let cut : IsSplit whole [] (split_string whole newline []) =
      split_string-IsSplit whole [] (omega (arith, round_short r.last_line line pipe.eof, chunk)) in
    (
      record {
        inside = cut.within;
        fits = omega (arith, cut.kept, round_short r.last_line line pipe.eof, chunk);
      },
      omega (arith, ap length cut.rest, round_carries r.last_line line pipe.eof, chunk),
    )

pub read_bulks-AllCut :
    (n rounds : ℕ) (r : Reader) → to_come r < 2 ^ 62 → AllCut (to_come r) (read_bulks n rounds r)
read_bulks-AllCut n zero r small = unfold read_bulks in (tt, omega arith)
read_bulks-AllCut n (suc rounds) r small = elim (Bool-cases r.pipe.eof) [
  | inl e ↦ rw (read_bulks_end n (suc rounds) r e) (tt, omega arith)
  | inr e ↦
      let (one, less) = read_bulk-IsCut n r small in
      let (more, rest) = read_bulks-AllCut n rounds (read_bulk n r).1 (omega (arith, less)) in
      rw (read_bulks_go n rounds r e) ((one, more), omega (arith, less, rest))
]

-- Every bulk of the loop of `_read_stream` over less than 2 ^ 62 bytes has its references inside its
-- string.
pub read_all-IsCut :
    (fuel : ℕ) (r : Reader) (bulks : List EventsBulk) (last : Reader)
    → to_come r < 2 ^ 62
    → read_all fuel r ≡ some (bulks, last)
    → All IsCut bulks
read_all-IsCut zero r bulks last small h = unfold read_all in cc
read_all-IsCut (suc fuel) r bulks last small h =
    let (one, less) = read_bulks-AllCut read_buffer_size bulk_capacity r small in
    let new = read_bulks read_buffer_size bulk_capacity r in
    elim (Bool-cases new.1.pipe.eof) [
      | inl e ↦
          subst (λ (b : List EventsBulk × Reader). All IsCut b.0)
            (some-injective new (bulks, last) (sym (round_last r fuel e) ∙ h)) one
      | inr e ↦
          let ((more, last'), (m, same)) = read_more r fuel (bulks, last) e h in
          subst (λ (b : List EventsBulk × Reader). All IsCut b.0) (sym same)
            (All-append IsCut new.0 more one
              (read_all-IsCut fuel new.1 more last' (omega (arith, less)) m))
    ]
