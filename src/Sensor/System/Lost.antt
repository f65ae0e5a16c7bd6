-- ===== src/Sensor/System/Lost.antt =====
-- What the stream has not got when the flag `finished` is up: the batches whose dispatch threw.
use mathlib.Core.List.{Perm, Sublist}
use linux_sensors.Base.{
  ℕ, [], ◌^◌, ◌<◌, ◌≡◌, ap, subst, ◌∙◌, ◌++◌, Bytes, true, length, All, concat_map,
}
use linux_sensors.Text.Completed.{newline, complete}
use linux_sensors.Trace.Whole.{IsReadable, parsed}
use linux_sensors.Sensor.Watch.{EventsWatch}
use linux_sensors.Sensor.Reader.Lines.{reader_on}
use linux_sensors.Sensor.Reader.Midway.{NoLoneByte}
use linux_sensors.Sensor.System.{System, start, Reach, here}
use linux_sensors.Sensor.System.Invariant.{records_of, joined}
use linux_sensors.Sensor.System.Spares.{lost_in}
use linux_sensors.Sensor.System.Reading.{bulks_read, bulks_read-done}
use linux_sensors.Sensor.System.Delivery.{Reach-Inv, Inv-over}
use linux_sensors.Sensor.System.Throw.{finished-SparesEnd}
use linux_sensors.Sensor.System.Parsed.{text-Reads}
use linux_sensors.Sensor.System.Losses.{dispatched_sublist}

module _ (text : Bytes) (watch worker_watch sender_watch : EventsWatch) (pack_size : ℕ)
    (lone : NoLoneByte text) (short : length text < 2 ^ 62)
    (readable : All IsReadable (complete [] (text ++ newline))) where
  -- For a text of less than 2 ^ 62 bytes that no read cuts one byte after a line end, and whose lines
  -- have a shape of the trace, in every interleaving, however many dispatches have thrown: when the
  -- flag `finished` is up, the records handed to the stream without an exception are in the order of
  -- the lines, and together with those of the batches whose dispatch threw (`lost_in`) they are the
  -- records of the lines, each line taken alone: no other record is missing.
  pub finished-loses :
      {s : System} (r : Reach (start (reader_on text watch) worker_watch sender_watch pack_size) s)
      → s.finished ≡ true
      → Sublist (joined s.dispatched) (concat_map parsed (complete [] (text ++ newline)))
        × Perm
            (joined s.dispatched ++ lost_in r)
            (concat_map parsed (complete [] (text ++ newline)))
  finished-loses {s} r over =
      let reader = reader_on text watch in
      let spared = finished-SparesEnd reader worker_watch sender_watch pack_size r here over in
      let (read, _, _, held) =
        Inv-over (Reach-Inv reader worker_watch sender_watch pack_size r spared) over in
      let reads = text-Reads text watch worker_watch sender_watch pack_size lone short readable in
      let all : records_of (bulks_read r) ≡ concat_map parsed (complete [] (text ++ newline)) =
        ap records_of (
          bulks_read-done reader worker_watch sender_watch pack_size r read reads.fuel reads.bulks
            reads.last reads.runs)
        ∙ reads.records in
      (
        subst (Sublist (joined s.dispatched)) all
            (dispatched_sublist reader worker_watch sender_watch pack_size r),
        subst (Perm (joined s.dispatched ++ lost_in r)) all held.parts,
      )
