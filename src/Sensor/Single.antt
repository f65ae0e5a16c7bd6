-- ===== src/Sensor/Single.antt =====
-- include/sensor/single_sensor.h: one thread, bulks of ten reads, a pack for each bulk. Its
-- `_send_stream` calls `dispatch` on a record where the stream takes a pack.
pub mod Parsed
use linux_sensors.Base.{
  ℕ, zero, suc, List, [], ◌∷◌, ◌++◌, true, false, Option, none, some, Outcome, ok, thrown,
  undefined, ◌>>=◌, Bool,
}
use linux_sensors.Base.Int.{ℤ}
use linux_sensors.Os.{Effect}
use linux_sensors.Trace.{SysParamsRecord}
use linux_sensors.Sensor.Aggregator.{DataAggregator, new_aggregator, append_all, make_new_pack}
use linux_sensors.Sensor.Lifecycle.{StreamClass, BaseSensor, new_base_sensor, delete_stream}
use linux_sensors.Sensor.Control.{add_filter, set_trace, clear_filters}
use linux_sensors.Sensor.Reader.{EventsBulk, Reader, read_bulks}
use linux_sensors.Sensor.System.{Pack, collect_bulk}

abbrev pub single_capacity : ℕ
single_capacity = 10

-- `_process_traces`: the packs of the bulks, in order, and the aggregator.
unfoldable pub process_traces :
    List EventsBulk
    → DataAggregator SysParamsRecord
    → Outcome (List Pack × DataAggregator SysParamsRecord)
unfolding collect_bulk append_all make_new_pack
process_traces [] agg = ok ([], agg)
process_traces (bulk ∷ bulks) agg = do
  records ← collect_bulk bulk
  let made = make_new_pack (append_all records agg)
  rest ← process_traces bulks made.1
  ok (made.0 ∷ rest.0, rest.1)

-- `_read_stream`: the packs in the order in which they are sent. `none` means that the fuel ran out.
unfoldable pub single_read :
    ℕ → Reader → DataAggregator SysParamsRecord → Option (Outcome (List Pack))
unfolding process_traces
single_read zero r agg = none
single_read (suc fuel) r agg =
    let (bulks, r') = read_bulks 1024 single_capacity r in
    elim (process_traces bulks agg) [
      | thrown ↦ some thrown
      | undefined ↦ some undefined
      | ok made ↦ elim r'.pipe.eof [
        | true ↦ some (ok made.0)
        | false ↦ elim (single_read fuel r' made.1) [
          | none ↦ none
          | some more ↦ some (more >>= λ packs. ok (made.0 ++ packs))
        ]
      ]
    ]

-- The members of `single_sensor` and of its base class (`_data` is `packing`); the tracer has none.
pub record SingleSensor : Type 0 where
  pub base : BaseSensor
  pub packing : DataAggregator SysParamsRecord

-- The constructor, which does not use its capacity: `_data` is built with its default limit.
unfoldable pub new_single_sensor : Option StreamClass → ℕ → SingleSensor
unfolding new_base_sensor new_aggregator
new_single_sensor stream capacity = record {
  base = new_base_sensor stream;
  packing = new_aggregator 1024;
}

unfoldable pub destroy : SingleSensor → Outcome BaseSensor
unfolding delete_stream
destroy s = delete_stream s.base

-- What `start` writes around `_read_stream`.
unfoldable pub single_start : List ℤ → List Effect × List Effect
unfolding add_filter set_trace clear_filters
single_start pids = (add_filter pids ++ set_trace true, set_trace false ++ clear_filters)

-- `run`, which does not look at its argument and calls `start`: what is written before, the packs,
-- and what is written behind them.
unfoldable pub run :
    Bool
    → ℕ
    → List ℤ
    → Reader
    → SingleSensor
    → Option (Outcome (List Effect × List Pack × List Effect))
unfolding single_read single_start
run whatever fuel pids r s =
    let (opens, closes) = single_start pids in
    elim (single_read fuel r s.packing) [
      | none ↦ none
      | some end ↦ some (end >>= λ packs. ok (opens, packs, closes))
    ]
