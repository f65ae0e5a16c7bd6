-- ===== src/Sensor/System/Steps/OfWorker.antt =====
-- The steps of `_process_traces` up to the nullptr keep the invariant.
use linux_sensors.Base.{
  ◌≡◌, List, [], ◌∷◌, ◌++◌, Bool, true, false, ok, none, some, refl, append_assoc, ap, sym, subst,
  ◌∙◌,
}
use linux_sensors.Queue.{MessageQueue, enqueue, send, receive_bulk}
use linux_sensors.Queue.Order.{receive_bulk-items}
use linux_sensors.Sensor.Aggregator.{append_all-items, ready, make_new_pack}
use linux_sensors.Sensor.Reader.{EventsBulk, bulk_capacity}
use linux_sensors.Sensor.System.{
  Pack, BulkMessage, worker_waiting, working, packing, flushing, System, collect_bulk, worker_next,
  worker_collect, worker_pack,
}
use linux_sensors.Sensor.System.Invariant.{
  records_of, joined, reader_over, worker_over, StreamIs, Inv, pointers_head, pointers_end,
  StreamIs-next,
}
use linux_sensors.Sensor.System.Queues.{ResultIs-more, ResultIs-same}
use linux_sensors.Sensor.System.Steps.Phases.{
  same_held, reader_over-done, collected_lem, regroup, worker_next-over, Drained-next, pack_total,
}

module _ {bulks : List EventsBulk} {lost : Pack} {s : System} (inv : Inv bulks lost s) where
  pub take_bulks-Inv :
      (ms : List BulkMessage) (rest : MessageQueue BulkMessage)
      → s.worker ≡ worker_waiting
      → receive_bulk bulk_capacity s.stream_queue ≡ some (ms, rest)
      → Inv bulks lost (record s { worker = worker_next ms; stream_queue = rest })
  take_bulks-Inv ms rest e got = record {
    left = inv.left;
    suffix = inv.suffix;
    packs = inv.packs;
    stream = StreamIs-next s.reader ms rest.queue.items inv.left (
        receive_bulk-items bulk_capacity s.stream_queue ms rest got
        ∙ subst (λ w. StreamIs s.reader w s.stream_queue.queue.items inv.left) e inv.stream);
    result =
        ResultIs-same s.worker (worker_next ms) s.sender s.result_queue.queue.items inv.packs
          (ap worker_over e) (worker_next-over ms) inv.result;
    drained = Drained-next ms s.aggregator.items;
    held = inv.held;
    over = inv.over;
  }

  pub collect_one-Inv :
      (bulk : EventsBulk) (ms : List BulkMessage) (records : Pack)
      → s.worker ≡ working (some bulk ∷ ms)
      → collect_bulk bulk ≡ ok records
      → Inv bulks lost (worker_collect records ms s)
  unfolding worker_collect
  collect_one-Inv bulk ms records e done =
      let stream' =
        subst (λ w. StreamIs s.reader w s.stream_queue.queue.items inv.left) e inv.stream in
      let (rest, cut, more) =
        pointers_head inv.left (reader_over s.reader) bulk (ms ++ s.stream_queue.queue.items)
          stream' in
      record {
        left = rest;
        suffix =
            let (gone, same) = inv.suffix in
            (
              gone ++ bulk ∷ [],
              append_assoc gone (bulk ∷ []) rest ∙ ap (λ t. gone ++ t) (sym cut) ∙ same,
            );
        packs = inv.packs;
        stream = more;
        result =
            ResultIs-same s.worker (packing ms) s.sender s.result_queue.queue.items inv.packs
              (ap worker_over e) refl inv.result;
        drained = tt;
        held = same_held inv (
            ap (λ t. joined s.dispatched ++ joined inv.packs ++ t ++ records_of rest)
              (append_all-items records s.aggregator)
            ∙ regroup (joined s.dispatched ++ joined inv.packs) s.aggregator.items records
                (records_of rest)
            ∙ ap (λ t. joined s.dispatched ++ joined inv.packs ++ s.aggregator.items ++ t)
                (ap (λ t. t ++ records_of rest) (sym (collected_lem bulk records done))
                  ∙ sym (ap records_of cut)));
        over = inv.over;
      }

  pub meet_end-Inv :
      (ms : List BulkMessage)
      → s.worker ≡ working (none ∷ ms)
      → Inv bulks lost (record s { worker = flushing })
  meet_end-Inv ms e =
      let stream' =
        subst (λ w. StreamIs s.reader w s.stream_queue.queue.items inv.left) e inv.stream in
      let (no_left, over, _) =
        pointers_end inv.left (reader_over s.reader) (ms ++ s.stream_queue.queue.items) stream' in
      record {
        left = inv.left;
        suffix = inv.suffix;
        packs = inv.packs;
        stream = (no_left, reader_over-done s.reader over);
        result =
            ResultIs-same s.worker flushing s.sender s.result_queue.queue.items inv.packs
              (ap worker_over e) refl inv.result;
        drained = tt;
        held = inv.held;
        over = inv.over;
      }

  pub pack_records-Inv :
      (ms : List BulkMessage) → s.worker ≡ packing ms → Inv bulks lost (worker_pack ms s)
  unfolding worker_pack make_new_pack send enqueue
  pack_records-Inv ms e = go (ready s.aggregator) refl
    where
      stream' : StreamIs s.reader (worker_next ms) s.stream_queue.queue.items inv.left
      stream' =
          StreamIs-next s.reader ms s.stream_queue.queue.items inv.left
            (subst (λ w. StreamIs s.reader w s.stream_queue.queue.items inv.left) e inv.stream)

      go : (full : Bool) → ready s.aggregator ≡ full → Inv bulks lost (worker_pack ms s)
      go true f =
          rw (f, worker_pack)
            (record {
              left = inv.left;
              suffix = inv.suffix;
              packs = inv.packs ++ s.aggregator.items ∷ [];
              stream = stream';
              result =
                  ResultIs-more s.worker (worker_next ms) s.sender s.result_queue.queue.items
                    inv.packs (s.aggregator.items ∷ []) (ap worker_over e) (worker_next-over ms)
                    inv.result;
              drained = Drained-next ms [];
              held = same_held inv (pack_total inv inv.packs s.aggregator.items);
              over = inv.over;
            })
      go false f =
          rw (f, worker_pack)
            (record {
              left = inv.left;
              suffix = inv.suffix;
              packs = inv.packs;
              stream = stream';
              result =
                  ResultIs-same s.worker (worker_next ms) s.sender s.result_queue.queue.items
                    inv.packs (ap worker_over e) (worker_next-over ms) inv.result;
              drained = Drained-next ms s.aggregator.items;
              held = inv.held;
              over = inv.over;
            })
