-- ===== src/Sensor/System/Steps/OfSender.antt =====
-- The steps of `_send_stream` keep the invariant, but a throw of `dispatch`.
use linux_sensors.Base.{ℕ, ◌≡◌, List, ◌∷◌, ◌++◌, none, some, refl, ap, sym, subst, ◌∙◌}
use linux_sensors.Queue.{MessageQueue, receive_bulk}
use linux_sensors.Queue.Order.{receive_bulk-items}
use linux_sensors.Sensor.Reader.{EventsBulk, bulk_capacity}
use linux_sensors.Sensor.System.{
  Pack, PackMessage, sender_waiting, sending, System, sender_next, sender_dispatch, sender_finish,
}
use linux_sensors.Sensor.System.Invariant.{
  records_of, joined, worker_over, ResultIs, Inv, pointers_head, pointers_end, ResultIs-next,
}
use linux_sensors.Sensor.System.Steps.Phases.{same_held, worker_over-done, dispatch_total}

module _ {bulks : List EventsBulk} {lost : Pack} {s : System} (inv : Inv bulks lost s) where
  pub take_packs-Inv :
      (ms : List PackMessage) (rest : MessageQueue PackMessage)
      → s.sender ≡ sender_waiting
      → receive_bulk bulk_capacity s.result_queue ≡ some (ms, rest)
      → Inv bulks lost (record s { sender = sender_next ms; result_queue = rest })
  take_packs-Inv ms rest e got = record {
    left = inv.left;
    suffix = inv.suffix;
    packs = inv.packs;
    stream = inv.stream;
    result = ResultIs-next s.worker ms rest.queue.items inv.packs (
        receive_bulk-items bulk_capacity s.result_queue ms rest got
        ∙ subst (λ w. ResultIs s.worker w s.result_queue.queue.items inv.packs) e inv.result);
    drained = inv.drained;
    held = inv.held;
    over = λ f. cc (e, inv.over f);
  }

  pub dispatch_pack-Inv :
      (pack : Pack) (ms : List PackMessage)
      → s.sender ≡ sending (some pack ∷ ms)
      → Inv bulks lost (sender_dispatch pack ms s)
  unfolding sender_dispatch
  dispatch_pack-Inv pack ms e =
      let result' =
        subst (λ w. ResultIs s.worker w s.result_queue.queue.items inv.packs) e inv.result in
      let (rest, cut, more) =
        pointers_head inv.packs (worker_over s.worker) pack (ms ++ s.result_queue.queue.items)
          result' in
      record {
        left = inv.left;
        suffix = inv.suffix;
        packs = rest;
        stream = inv.stream;
        result = ResultIs-next s.worker ms s.result_queue.queue.items rest more;
        drained = inv.drained;
        held = same_held inv (
            dispatch_total inv pack rest
            ∙ ap (λ t. joined s.dispatched ++ joined t ++ s.aggregator.items ++ records_of inv.left)
                (sym cut));
        over = λ f. cc (e, inv.over f);
      }

  pub finish-Inv :
      (clock : ℕ) (ms : List PackMessage)
      → s.sender ≡ sending (none ∷ ms)
      → Inv bulks lost (sender_finish clock s)
  unfolding sender_finish
  finish-Inv clock ms e =
      let result' =
        subst (λ w. ResultIs s.worker w s.result_queue.queue.items inv.packs) e inv.result in
      let (no_packs, over, _) =
        pointers_end inv.packs (worker_over s.worker) (ms ++ s.result_queue.queue.items) result' in
      record {
        left = inv.left;
        suffix = inv.suffix;
        packs = inv.packs;
        stream = inv.stream;
        result = (no_packs, worker_over-done s.worker over);
        drained = inv.drained;
        held = inv.held;
        over = λ _. refl;
      }
