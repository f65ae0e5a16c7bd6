-- ===== src/Sensor/System/Steps/OfReader.antt =====
-- The steps of `_read_stream` keep the invariant.
use linux_sensors.Base.{◌≡◌, List, ◌++◌, append_assoc, ap, sym, subst, ◌∙◌}
use linux_sensors.Queue.{enqueue, send}
use linux_sensors.Sensor.Reader.{EventsBulk, Reader, read_bulks, read_buffer_size, bulk_capacity}
use linux_sensors.Sensor.System.{
  Pack, reading, ending, System, reader_phase, reader_round, reader_end,
}
use linux_sensors.Sensor.System.Invariant.{
  Held, records_of, joined, reader_over, StreamIs, Inv, records_of-append,
}
use linux_sensors.Sensor.System.Queues.{StreamIs-more, StreamIs-end}
use linux_sensors.Sensor.System.Steps.Phases.{read_held, send_bulk-pointers, reader_phase-over}

module _ {bulks : List EventsBulk} {lost : Pack} {s : System} (inv : Inv bulks lost s) where
  pub reader_round-Inv :
      (r : Reader)
      → s.reader ≡ reading r
      → Inv (bulks ++ (read_bulks read_buffer_size bulk_capacity r).0) lost (reader_round r s)
  unfolding reader_round
  reader_round-Inv r e =
      let (new, r') = read_bulks read_buffer_size bulk_capacity r in
      record {
        left = inv.left ++ new;
        suffix =
            let (gone, same) = inv.suffix in
            (gone, sym (append_assoc gone inv.left new) ∙ ap (λ t. t ++ new) same);
        packs = inv.packs;
        stream =
            subst (λ q. StreamIs (reader_phase r'.pipe.eof r') s.worker q (inv.left ++ new))
              (sym (send_bulk-pointers new s.stream_queue))
              (StreamIs-more s.reader (reader_phase r'.pipe.eof r') s.worker
                s.stream_queue.queue.items inv.left new (ap reader_over e)
                (reader_phase-over r'.pipe.eof r') inv.stream);
        result = inv.result;
        drained = inv.drained;
        held =
            subst (Held s.failed (bulks ++ new) lost)
              (sym (
                ap (λ t. joined s.dispatched ++ joined inv.packs ++ s.aggregator.items ++ t)
                  (records_of-append inv.left new)
                ∙ sym (append_assoc _ (records_of inv.left) (records_of new))))
              (read_held new inv.held);
        over = inv.over;
      }

  pub reader_end-Inv : (r : Reader) → s.reader ≡ ending r → Inv bulks lost (reader_end s)
  unfolding reader_end send enqueue
  reader_end-Inv r e = record {
    left = inv.left;
    suffix = inv.suffix;
    packs = inv.packs;
    stream =
        StreamIs-end s.reader s.worker s.stream_queue.queue.items inv.left (ap reader_over e)
          inv.stream;
    result = inv.result;
    drained = inv.drained;
    held = inv.held;
    over = inv.over;
  }
