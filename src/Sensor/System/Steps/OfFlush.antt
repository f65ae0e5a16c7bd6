-- ===== src/Sensor/System/Steps/OfFlush.antt =====
-- The steps of `_process_traces` from the nullptr on keep the invariant.
use linux_sensors.Base.{ℕ, ◌≡◌, List, [], ◌∷◌, ◌++◌, refl, ap, sym, subst, ◌∙◌}
use linux_sensors.Trace.{SysParamsRecord}
use linux_sensors.Queue.{enqueue, send}
use linux_sensors.Sensor.Aggregator.{DataAggregator, make_new_pack}
use linux_sensors.Sensor.Reader.{EventsBulk}
use linux_sensors.Sensor.System.{
  Pack, flushing, telling_workers, telling_sender, System, flushed, worker_flush,
  worker_tell_workers, worker_tell_sender,
}
use linux_sensors.Sensor.System.Invariant.{records_of, joined, worker_over, StreamIs, Drained, Inv}
use linux_sensors.Sensor.System.Queues.{ResultIs-more, ResultIs-same, ResultIs-end}
use linux_sensors.Sensor.System.Steps.Phases.{same_held, pack_total}

module _ {bulks : List EventsBulk} {lost : Pack} {s : System} (inv : Inv bulks lost s) where
  flushed-Inv :
      (items : Pack) (agg : DataAggregator SysParamsRecord)
      → s.worker ≡ flushing
      → s.aggregator.items ≡ items
      → agg.items ≡ []
      → Inv bulks lost (flushed items agg s)
  unfolding flushed send enqueue
  flushed-Inv [] agg e f g = record {
    left = inv.left;
    suffix = inv.suffix;
    packs = inv.packs;
    stream = subst (λ w. StreamIs s.reader w s.stream_queue.queue.items inv.left) e inv.stream;
    result =
        ResultIs-same s.worker telling_workers s.sender s.result_queue.queue.items inv.packs
          (ap worker_over e) refl inv.result;
    drained = g;
    held =
        same_held inv (
          ap (λ t. joined s.dispatched ++ joined inv.packs ++ t ++ records_of inv.left)
            (g ∙ sym f));
    over = inv.over;
  }
  flushed-Inv (r ∷ rs) agg e f g = record {
    left = inv.left;
    suffix = inv.suffix;
    packs = inv.packs ++ (r ∷ rs) ∷ [];
    stream = subst (λ w. StreamIs s.reader w s.stream_queue.queue.items inv.left) e inv.stream;
    result =
        ResultIs-more s.worker telling_workers s.sender s.result_queue.queue.items inv.packs
          ((r ∷ rs) ∷ []) (ap worker_over e) refl inv.result;
    drained = g;
    held = same_held inv (
        ap
          (λ t.
            joined s.dispatched ++ joined (inv.packs ++ (r ∷ rs) ∷ []) ++ t ++ records_of inv.left)
          g
        ∙ pack_total inv inv.packs (r ∷ rs)
        ∙ ap (λ t. joined s.dispatched ++ joined inv.packs ++ t ++ records_of inv.left) (sym f));
    over = inv.over;
  }

  pub worker_flush-Inv : s.worker ≡ flushing → Inv bulks lost (worker_flush s)
  unfolding worker_flush make_new_pack
  worker_flush-Inv e =
      flushed-Inv s.aggregator.items (record s.aggregator { items = [] }) e refl refl

  pub tell_workers-Inv : s.worker ≡ telling_workers → Inv bulks lost (worker_tell_workers s)
  unfolding worker_tell_workers
  tell_workers-Inv e = record {
    left = inv.left;
    suffix = inv.suffix;
    packs = inv.packs;
    stream = subst (λ w. StreamIs s.reader w s.stream_queue.queue.items inv.left) e inv.stream;
    result =
        ResultIs-same s.worker telling_sender s.sender s.result_queue.queue.items inv.packs
          (ap worker_over e) refl inv.result;
    drained = subst (λ w. Drained w s.aggregator.items) e inv.drained;
    held = inv.held;
    over = inv.over;
  }

  pub tell_sender-Inv :
      (clock : ℕ) → s.worker ≡ telling_sender → Inv bulks lost (worker_tell_sender clock s)
  unfolding worker_tell_sender send enqueue
  tell_sender-Inv clock e = record {
    left = inv.left;
    suffix = inv.suffix;
    packs = inv.packs;
    stream = subst (λ w. StreamIs s.reader w s.stream_queue.queue.items inv.left) e inv.stream;
    result =
        ResultIs-end s.worker s.sender s.result_queue.queue.items inv.packs (ap worker_over e)
          inv.result;
    drained = subst (λ w. Drained w s.aggregator.items) e inv.drained;
    held = inv.held;
    over = inv.over;
  }
