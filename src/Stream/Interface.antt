-- ===== src/Stream/Interface.antt =====
-- include/stream/base_stream.h: what the sensor asks of a stream, and the streams that answer.
pub mod Chunks
use linux_sensors.Base.{ℕ, List, [], ◌∷◌, ◌++◌, Bytes}
use linux_sensors.Os.{Effect}
use linux_sensors.Trace.{SysParamsRecord}
use linux_sensors.Stream.{Format, console_dispatch, file_dispatch, dummy_dispatch}
use linux_sensors.Stream.Aggregate.{Traces, memory_dispatch}

-- `class sensor_stream`, over the state `S` of the stream and of what it writes to.
pub record SensorStream {ℓ} (S : Type ℓ) : Type ℓ where
  pub dispatch : List SysParamsRecord → S → S

-- The packs of a run, one `dispatch` for each.
unfoldable pub dispatch_all {ℓ} :
    {S : Type ℓ} → SensorStream S → List (List SysParamsRecord) → S → S
dispatch_all stream [] s = s
dispatch_all stream (pack ∷ packs) s = dispatch_all stream packs (stream.dispatch pack s)

abbrev pub memory_stream : SensorStream Traces
memory_stream = record { dispatch = memory_dispatch }

-- Over the content of the file.
abbrev pub file_stream : Format → SensorStream Bytes
file_stream format = record { dispatch = file_dispatch format }

-- Over what was printed so far.
abbrev pub console_stream : Format → SensorStream (List Effect)
console_stream format = record { dispatch = λ records out. out ++ console_dispatch format records }

abbrev pub dumy_stream : SensorStream (List Effect)
dumy_stream = record { dispatch = λ records out. out ++ dummy_dispatch records }
