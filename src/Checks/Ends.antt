-- ===== src/Checks/Ends.antt =====
-- The run of Threads from the text to the stream, the counts, and single lines.
use linux_sensors.Base.{
  ◌%◌, ◌^◌, ◌≡◌, inr, List, [], ◌∷◌, ◌++◌, true, some, refl, arith, All, ok, concat_map, length,
}
use linux_sensors.Base.Int.{pos}
use linux_sensors.Text.{StringRef, view}
use linux_sensors.Text.Completed.{newline, complete}
use linux_sensors.Trace.{SysParamsRecord, collect_line}
use linux_sensors.Trace.Locality.{whole}
use linux_sensors.Trace.Alone.{collect_line-view}
use linux_sensors.Trace.Total.{collect_line_total}
use linux_sensors.Trace.Whole.{IsReadable, parsed}
use linux_sensors.Stream.Interface.{dispatch_all, memory_stream}
use linux_sensors.Stream.Interface.Chunks.{memory_stream-IsChunked}
use linux_sensors.Stream.Aggregate.{memory_dispatch}
use linux_sensors.Sensor.Watch.{new_watch}
use linux_sensors.Sensor.System.Invariant.{joined}
use linux_sensors.Sensor.System.Ends.{Stops, Reach-Stops}
use linux_sensors.Sensor.System.Streamed.{finished-streams}
use linux_sensors.Sensor.System.Counts.{watches_count}
use linux_sensors.Sensor.Lifecycle
use linux_sensors.Sensor.Single
use linux_sensors.Sensor.Single.{single_start}
use linux_sensors.Sensor.Single.Parsed.{run-parses}
use linux_sensors.Sensor.System.{Pack}
use linux_sensors.Checks.Threads.{
  text, reader, was_taken, was_sent, run_reads, run_ends, no_lone_byte, sent_over, sent_sound,
  sent-IsSmall,
}

text-IsReadable : IsReadable text
text-IsReadable = (ground arith, inr (omega arith, (b'-', (refl, omega arith))))

pub lines-IsReadable : All IsReadable (complete [] (text ++ newline))
unfolding complete
lines-IsReadable = (text-IsReadable, tt)

Reach-Stops_example : Stops was_taken
Reach-Stops_example = Reach-Stops reader new_watch new_watch 10 refl refl run_reads

finished-streams_example :
    dispatch_all memory_stream was_sent.dispatched []
    ≡ memory_dispatch (concat_map parsed (complete [] (text ++ newline))) []
finished-streams_example =
    finished-streams memory_stream memory_stream-IsChunked text new_watch new_watch new_watch 10
      no_lone_byte (omega arith) lines-IsReadable run_ends sent_over sent_sound []

watches_count_example :
    (was_sent.sender_watch.total_events ≡ length (joined was_sent.dispatched) % 2 ^ 64)
    × (was_sent.worker_watch.total_events ≡ 0)
    × (was_sent.worker_watch.events ≡ 0)
unfolding new_watch
watches_count_example =
    watches_count reader new_watch new_watch 10 refl refl refl run_ends sent-IsSmall

abbrev line : StringRef
line = record { start = 0; size = length text; buffer = [] }

collect_line-view_example :
    collect_line text line ≡ collect_line (view text line) (whole (view text line))
collect_line-view_example =
    collect_line-view text line (omega arith) (omega arith)
      (inr (omega arith, (b'-', (refl, omega arith))))

collect_line_total_example :
    (records : List SysParamsRecord) × (collect_line text (whole text) ≡ ok records)
collect_line_total_example =
    collect_line_total text text-IsReadable.0 (omega arith) text-IsReadable.1

run-parses_example :
    (packs : List Pack) × ((Single.run true 1
          (pos 5 ∷ [])
          reader
          (Single.new_single_sensor (some Lifecycle.console_stream) 1024)
        ≡ some (ok ((single_start (pos 5 ∷ [])).0, packs, (single_start (pos 5 ∷ [])).1)))
      × (joined packs ≡ concat_map parsed (complete [] (text ++ newline))))
run-parses_example =
    run-parses text no_lone_byte (omega arith) lines-IsReadable new_watch 1 true (pos 5 ∷ [])
      (some Lifecycle.console_stream) 1024 (omega arith)
