-- ===== src/Sensor/System/Parsed.antt =====
-- From the text of `trace_pipe` to the records that the stream is handed.
use linux_sensors.Base.{
  All-split, concat_map-append, ℕ, ◌+◌, ◌^◌, ◌<◌, ◌≡◌, refl, ap, ap₂, sym, subst, ◌∙◌, List, [],
  ◌∷◌, ◌++◌, Bytes, true, false, some, ok, ◌↔◌, length, All, concat_map, arith,
}
use linux_sensors.Text.Completed.{newline, complete}
use linux_sensors.Trace.Whole.{IsReadable, parsed, collect-parsed}
use linux_sensors.Sensor.Watch.{EventsWatch}
use linux_sensors.Sensor.Reader.{EventsBulk, Reader, read_all}
use linux_sensors.Sensor.Reader.Lines.{reader_on, read_all-lines}
use linux_sensors.Sensor.Reader.Midway.{bulk_lines, lines_of, NoLoneByte}
use linux_sensors.Sensor.Reader.Cuts.{IsCut, read_all-IsCut}
use linux_sensors.Sensor.System.{System, start, Reach, collect_bulk}
use linux_sensors.Sensor.System.Invariant.{collected, records_of, joined}
use linux_sensors.Sensor.System.Steps.{collected_lem}
use linux_sensors.Sensor.System.Spares.{SparesEnd}
use linux_sensors.Sensor.System.Throw.{finished-SparesEnd}
use linux_sensors.Sensor.System.Delivery.{finished-delivers}
use linux_sensors.Sensor.System.Refusals.{IsCollectable, Completes, Reach-Completes}

bulk-parsed :
    (bulk : EventsBulk)
    → IsCut bulk
    → All IsReadable (bulk_lines bulk)
    → collect_bulk bulk ≡ ok (concat_map parsed (bulk_lines bulk))
unfolding collect_bulk
bulk-parsed bulk cut readable = collect-parsed bulk.buffer bulk.lines cut.fits cut.inside readable

-- Bulks of readable lines: each is collected, and together they make the records of the lines.
pub bulks-parsed :
    (bulks : List EventsBulk)
    → All IsCut bulks
    → All IsReadable (lines_of bulks)
    → All IsCollectable bulks × (records_of bulks ≡ concat_map parsed (lines_of bulks))
unfolding collected
bulks-parsed [] cut readable = (tt, refl)
bulks-parsed (bulk ∷ bulks) (cut, cuts) readable =
    let (here, later) = All-split IsReadable (bulk_lines bulk) (lines_of bulks) readable in
    let (good, same) = bulks-parsed bulks cuts later in
    let one = bulk-parsed bulk cut here in
    (
      ((concat_map parsed (bulk_lines bulk), one), good),
      ap₂ ◌++◌ (collected_lem bulk _ one) same
          ∙ sym (concat_map-append parsed (bulk_lines bulk) (lines_of bulks)),
    )

module _ (text : Bytes) (watch worker_watch sender_watch : EventsWatch) (pack_size : ℕ)
    (lone : NoLoneByte text) (short : length text < 2 ^ 62)
    (readable : All IsReadable (complete [] (text ++ newline))) where
  -- What the loop of `_read_stream` makes of the text.
  pub record Reads : Type 0 where
    pub fuel : ℕ
    pub bulks : List EventsBulk
    pub last : Reader
    pub runs : read_all fuel (reader_on text watch) ≡ some (bulks, last)
    pub collects : All IsCollectable bulks
    pub records : records_of bulks ≡ concat_map parsed (complete [] (text ++ newline))

  pub text-Reads : Reads
  text-Reads =
      let ((bulks, last), (runs, lines)) =
        read_all-lines text watch (length text + 1) lone short (omega arith) in
      let cuts =
        read_all-IsCut (length text + 1) (reader_on text watch) bulks last (omega (arith, short))
          runs in
      let (collects, records) =
        bulks-parsed bulks cuts (subst (All IsReadable) (sym lines) readable) in
      record {
        fuel = length text + 1;
        bulks = bulks;
        last = last;
        runs = runs;
        collects = collects;
        records = records ∙ ap (concat_map parsed) lines;
      }

  -- For a text of less than 2 ^ 62 bytes that no read cuts one byte after a line end, and whose lines
  -- have a shape of the trace, in every interleaving: when the flag `finished` is up and no dispatch
  -- has thrown, the packs handed to the stream are, in order, the records of the lines of the text,
  -- each line taken alone.
  pub finished-parses :
      {s : System}
      → Reach (start (reader_on text watch) worker_watch sender_watch pack_size) s
      → s.finished ≡ true
      → s.failed ≡ false
      → joined s.dispatched ≡ concat_map parsed (complete [] (text ++ newline))
  finished-parses r over sound =
      let (_, _, all) =
        finished-delivers (reader_on text watch) worker_watch sender_watch pack_size r over sound
          text-Reads.fuel text-Reads.bulks text-Reads.last text-Reads.runs in
      all ∙ text-Reads.records

  -- For a text of less than 2 ^ 62 bytes that no read cuts one byte after a line end, and whose lines
  -- have a shape of the trace, and every run of the threads, which may have thrown: they can go on,
  -- without a further throw, to a state with the flag `finished` up exactly if no throw so far has
  -- dropped the closing nullptr with the packs of its batch.
  pub text-Completes :
      {s : System} (r : Reach (start (reader_on text watch) worker_watch sender_watch pack_size) s)
      → Completes s ↔ SparesEnd r
  text-Completes r = (
    λ (u, more, all, over).
        finished-SparesEnd (reader_on text watch) worker_watch sender_watch pack_size r more over,
    Reach-Completes (reader_on text watch) worker_watch sender_watch pack_size refl refl
        text-Reads.fuel text-Reads.bulks text-Reads.last text-Reads.runs text-Reads.collects r,
  )
