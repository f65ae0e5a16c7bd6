-- ===== src/Sensor/Single/Parsed.antt =====
-- The single-threaded sensor makes the same records of a text as the one with threads.
use linux_sensors.Base.{
  ℕ, zero, suc, ◌*◌, ◌^◌, ◌<◌, ◌≡◌, inl, inr, refl, ap, ap₂, sym, subst, ◌∙◌, List, [], ◌∷◌, ◌++◌,
  Bytes, Bool, true, false, Option, some, ok, length, All, All-split, concat_map, concat_map-append,
  append_assoc, Bool-cases, arith,
}
use linux_sensors.Base.Int.{ℤ}
use linux_sensors.Text.Completed.{newline, complete, remainder}
use linux_sensors.Trace.{SysParamsRecord}
use linux_sensors.Trace.Whole.{IsReadable, parsed}
use linux_sensors.Sensor.Watch.{EventsWatch}
use linux_sensors.Sensor.Aggregator.{
  DataAggregator, append_all, append_all-items, make_new_pack, new_aggregator,
}
use linux_sensors.Sensor.Lifecycle.{StreamClass}
use linux_sensors.Sensor.Reader.{EventsBulk, Reader, read_bulks, read_buffer_size}
use linux_sensors.Sensor.Reader.Rounds.{read_bulks-Shorter}
use linux_sensors.Sensor.Reader.Lines.{Progress-Over, Progress-first, bulks_Progress, reader_on}
use linux_sensors.Sensor.Reader.Midway.{lines_of, NoLoneByte, Midway, Progress}
use linux_sensors.Sensor.Reader.Cuts.{to_come, read_bulks-AllCut}
use linux_sensors.Sensor.System.{Pack}
use linux_sensors.Sensor.System.Invariant.{records_of, joined, joined-append}
use linux_sensors.Sensor.System.Steps.{collected_lem}
use linux_sensors.Sensor.System.Refusals.{IsCollectable}
use linux_sensors.Sensor.System.Parsed.{bulks-parsed}
use linux_sensors.Sensor.Single.{
  single_capacity, process_traces, single_read, single_start, SingleSensor, new_single_sensor, run,
}

-- A pack for each bulk, and an empty aggregator behind each.
process_traces-joined :
    (bulks : List EventsBulk) (agg : DataAggregator SysParamsRecord)
    → agg.items ≡ []
    → All IsCollectable bulks
    → (result : List Pack × DataAggregator SysParamsRecord) × ((process_traces bulks agg
          ≡ ok result)
        × (joined result.0 ≡ records_of bulks)
        × (result.1.items ≡ []))
unfolding process_traces make_new_pack
process_traces-joined [] agg e good = (([], agg), (refl, refl, e))
process_traces-joined (bulk ∷ bulks) agg e ((records, one), good) =
    let ((packs, agg'), (runs, same, e')) =
      process_traces-joined bulks (record (append_all records agg) { items = [] }) refl good in
    let pack = (append_all records agg).items in
    let whole : pack ≡ records = append_all-items records agg ∙ ap (λ t. t ++ records) e in
    (
      (pack ∷ packs, agg'),
      (rw (one, runs) refl, ap₂ ◌++◌ (whole ∙ sym (collected_lem bulk records one)) same, e'),
    )

module _ (fuel : ℕ) (r : Reader) (agg agg' : DataAggregator SysParamsRecord) (packs : List Pack)
    (made : process_traces (read_bulks read_buffer_size single_capacity r).0 agg
      ≡ ok (packs, agg')) where
  single_read-last :
      (read_bulks read_buffer_size single_capacity r).1.pipe.eof ≡ true
      → single_read (suc fuel) r agg ≡ some (ok packs)
  unfolding single_read
  single_read-last e = rw (single_read, made, e) refl

  single_read-more :
      (more : List Pack)
      → (read_bulks read_buffer_size single_capacity r).1.pipe.eof ≡ false
      → single_read fuel (read_bulks read_buffer_size single_capacity r).1 agg' ≡ some (ok more)
      → single_read (suc fuel) r agg ≡ some (ok (packs ++ more))
  unfolding single_read
  single_read-more more e h = rw (single_read, made, e, h) refl

run-single_read :
    (whatever : Bool) (fuel : ℕ) (pids : List ℤ) (r : Reader) (s : SingleSensor) (packs : List Pack)
    → single_read fuel r s.packing ≡ some (ok packs)
    → run whatever fuel pids r s ≡ some (ok ((single_start pids).0, packs, (single_start pids).1))
unfolding run
run-single_read whatever fuel pids r s packs h = rw (run, h) refl

module _ (text : Bytes) (lone : NoLoneByte text) (short : length text < 2 ^ 62)
    (readable : All IsReadable (complete [] (text ++ newline))) where
  -- What the lines of a round's bulks are, and that they can be collected.
  round_collects :
      (found : List Bytes) (r : Reader)
      → Progress text found r
      → to_come r < 2 ^ 62
      → let new = (read_bulks read_buffer_size single_capacity r).0 in
        All IsCollectable new × (records_of new ≡ concat_map parsed (lines_of new))
  round_collects found r at_text small =
      let new = read_bulks read_buffer_size single_capacity r in
      let (cuts, _) = read_bulks-AllCut read_buffer_size single_capacity r small in
      let (rest, first) =
        Progress-first text (found ++ lines_of new.0) new.1
          (bulks_Progress text lone short single_capacity found r at_text) in
      let all = subst (All IsReadable) (sym first) readable in
      let (so_far, _) = All-split IsReadable (found ++ lines_of new.0) rest all in
      let (_, here) = All-split IsReadable found (lines_of new.0) so_far in
      bulks-parsed new.0 cuts here

  single_read_all :
      (fuel : ℕ) (found : List Bytes) (r : Reader) (agg : DataAggregator SysParamsRecord)
      → Progress text found r
      → r.pipe.opened ≡ true
      → r.pipe.eof ≡ false
      → to_come r < 2 ^ 62
      → length r.pipe.rest < fuel * read_buffer_size
      → agg.items ≡ []
      → (packs : List Pack) × ((single_read fuel r agg ≡ some (ok packs))
          × (concat_map parsed found ++ joined packs
              ≡ concat_map parsed (complete [] (text ++ newline))))
  single_read_all zero found r agg at_text opened fresh small enough e = absurd (omega arith)
  single_read_all (suc fuel) found r agg at_text opened fresh small enough e =
      let new = read_bulks read_buffer_size single_capacity r in
      let (good, same) = round_collects found r at_text small in
      let (_, less) = read_bulks-AllCut read_buffer_size single_capacity r small in
      let ((packs, agg'), (made, whole, e')) = process_traces-joined new.0 agg e good in
      let on = bulks_Progress text lone short single_capacity found r at_text in
      let shorter = read_bulks-Shorter read_buffer_size 9 r opened fresh in
      let sum : concat_map parsed found ++ joined packs
          ≡ concat_map parsed (found ++ lines_of new.0) =
        ap (λ t. concat_map parsed found ++ t) (whole ∙ same)
        ∙ sym (concat_map-append parsed found (lines_of new.0)) in
      elim (Bool-cases new.1.pipe.eof) [
        | inl ended ↦ (
          packs,
          (
            single_read-last fuel r agg agg' packs made ended,
            sum
                ∙ ap (concat_map parsed)
                    (Progress-Over text (found ++ lines_of new.0) new.1 on ended).lines,
          ),
        )
        | inr runs ↦
            let (more, (reads, rest)) =
              single_read_all fuel (found ++ lines_of new.0) new.1 agg' on shorter.opened runs
                (omega (arith, less, small)) (ground (arith, shorter.shorter)) e' in
            (
              packs ++ more,
              (
                single_read-more fuel r agg agg' packs made more runs reads,
                ap (λ t. concat_map parsed found ++ t) (joined-append packs more)
                    ∙ sym (append_assoc (concat_map parsed found) (joined packs) (joined more))
                    ∙ ap (λ t. t ++ joined more) sum
                    ∙ rest,
              ),
            )
      ]

  -- `run` of the single-threaded sensor, on a text of less than 2 ^ 62 bytes that no read cuts one
  -- byte after a line end, and whose lines have a shape of the trace, ends within a round for each
  -- 1024 bytes and one more, and its packs hold, in order, the records of the lines of the text, each
  -- line taken alone.
  pub run-parses :
      (watch : EventsWatch) (fuel : ℕ) (whatever : Bool) (pids : List ℤ)
      (stream : Option StreamClass) (capacity : ℕ)
      → length text < fuel * read_buffer_size
      → (packs : List Pack) × ((run whatever fuel pids
              (reader_on text watch)
              (new_single_sensor stream capacity)
            ≡ some (ok ((single_start pids).0, packs, (single_start pids).1)))
          × (joined packs ≡ concat_map parsed (complete [] (text ++ newline))))
  unfolding new_single_sensor new_aggregator complete remainder
  run-parses watch fuel whatever pids stream capacity enough =
      let before : Midway text [] [] (reader_on text watch) = record {
        opened = refl;
        runs = refl;
        halves = refl;
        rounds = (0, refl);
        held = refl;
        lines = refl;
      } in
      let (packs, (reads, same)) =
        single_read_all fuel [] (reader_on text watch) (new_aggregator 1024) (inl ([], before)) refl
          refl (omega (arith, short)) enough refl in
      (
        packs,
        (
          run-single_read whatever fuel pids (reader_on text watch)
              (new_single_sensor stream capacity) packs reads,
          same,
        ),
      )
