-- ===== src/Sensor/Reader.antt =====
-- The reader of include/sensor/multithreaded_sensor.h (`_read_stream`), and the bulks of
-- include/sensor/events_bulk.h that it makes of the text of `trace_pipe`.
pub mod Midway
pub mod Lines
pub mod Rounds
pub mod Cuts
use linux_sensors.Base.{
  ℕ, zero, suc, List, [], ◌∷◌, ◌++◌, Bytes, Bool, true, false, ltb, length, take, drop,
  if◌then◌else◌, Option, none, some,
}
use linux_sensors.Base.Int.{pos, to_int}
use linux_sensors.Text.Completed.{newline}
use linux_sensors.Text.{StringRef, Split, split_string}
use linux_sensors.Sensor.Watch
use linux_sensors.Sensor.Watch.{EventsWatch}

-- `class EventsBulk`: the moved string, and the references into it.
pub record EventsBulk : Type 0 where
  pub buffer : Bytes
  pub lines : List StringRef

-- A std::ifstream: whether it was opened, the bytes to come, and its eofbit. `trace_pipe` is a live
-- stream; here it is the finite text that is read until its end, and a read does not wait.
pub record TracePipe : Type 0 where
  pub opened : Bool
  pub rest : Bytes
  pub eof : Bool

-- `trace_pipe.read(line, n)`: the bytes read, `gcount()` of them. A short read sets eofbit; a stream
-- that did not open reads nothing and leaves eofbit alone.
unfoldable pub read_chunk : ℕ → TracePipe → Bytes × TracePipe
read_chunk n pipe =
    if pipe.opened
    then (if ltb (length pipe.rest) n
        then (pipe.rest, record pipe { rest = []; eof = true })
        else (take n pipe.rest, record pipe { rest = drop n pipe.rest }))
    else ([], pipe)

abbrev pub read_buffer_size : ℕ
read_buffer_size = 1024

abbrev pub bulk_capacity : ℕ
bulk_capacity = 512

-- What the reader holds between two rounds.
pub record Reader : Type 0 where
  pub pipe : TracePipe
  pub last_line : Bytes
  pub watch : EventsWatch

-- The string of one round: `last_line` (which the move leaves empty), the bytes read, and a line
-- end once the text has ended.
unfoldable pub round_text : Bytes → Bytes → Bool → Bytes
round_text last_line line ended =
    if ended then (last_line ++ line) ++ newline else last_line ++ line

-- What a round makes of the split string: a bulk, and the reader after it.
abbrev pub after_split : Split → TracePipe → EventsWatch → EventsBulk × Reader
after_split split pipe watch = (
  record { buffer = split.text; lines = split.lines },
  record {
    pipe = pipe;
    last_line = split.last_line;
    watch = Watch.add (to_int (pos (length split.lines))) watch;
  },
)

-- One round of the inner loop.
unfoldable pub read_bulk : ℕ → Reader → EventsBulk × Reader
read_bulk buffer_size r =
    let (line, pipe) = read_chunk buffer_size r.pipe in
    after_split (split_string (round_text r.last_line line pipe.eof) newline []) pipe r.watch

-- `for (; i < BULK_CAPACITY && !trace_pipe.eof(); i++)`, with the rounds left.
unfoldable pub read_bulks : ℕ → ℕ → Reader → List EventsBulk × Reader
read_bulks buffer_size zero r = ([], r)
read_bulks buffer_size (suc rounds) r = elim r.pipe.eof [
  | true ↦ ([], r)
  | false ↦
      let (bulk, r') = read_bulk buffer_size r in
      let (bulks, r'') = read_bulks buffer_size rounds r' in (bulk ∷ bulks, r'')
]

-- The `do … while (!trace_pipe.eof())` loop: all bulks in order, and the reader at its end. `none`
-- means that the fuel ran out.
unfoldable pub read_all : ℕ → Reader → Option (List EventsBulk × Reader)
read_all zero r = none
read_all (suc fuel) r =
    let (bulks, r') = read_bulks read_buffer_size bulk_capacity r in
    elim r'.pipe.eof [
      | true ↦ some (bulks, r')
      | false ↦ elim (read_all fuel r') [
        | none ↦ none
        | some (more, r'') ↦ some (bulks ++ more, r'')
      ]
    ]
