-- ===== src/Sensor/System/Losses.antt =====
-- What an exception in `dispatch` cannot do: change the order of the records, or double one. This
-- holds of every execution, with any number of exceptions.
use mathlib.Core.List.{Sublist, nil-sublist}
use mathlib.Core.List.Sublist
use linux_sensors.Base.{
  ℕ, ◌≡◌, List, [], ◌∷◌, ◌++◌, Bool, true, false, ok, some, refl, append-nil, ap, ap₂, sym, subst,
  ◌∙◌,
}
use linux_sensors.Trace.{SysParamsRecord}
use linux_sensors.Queue.{empty_queue, enqueue, send}
use linux_sensors.Sensor.Aggregator.{
  DataAggregator, new_aggregator, append_all-items, ready, make_new_pack,
}
use linux_sensors.Sensor.Watch.{EventsWatch}
use linux_sensors.Sensor.Reader.{EventsBulk, Reader}
use linux_sensors.Sensor.System.{
  Pack, BulkMessage, PackMessage, working, packing, flushing, sending, System, Step, read_round,
  read_end, take_bulks, collect_one, pack_records, meet_end, flush, tell_workers, tell_sender,
  take_packs, dispatch_pack, dispatch_throws, finish, Reach, here, next, start, collect_bulk,
  worker_next, reader_end, worker_collect, worker_pack, flushed, worker_flush, worker_tell_workers,
  worker_tell_sender, sender_dispatch, sender_finish,
}
use linux_sensors.Sensor.System.Invariant.{somes, records_of, joined, records_of-append}
use linux_sensors.Sensor.System.Steps.{collected_lem}
use linux_sensors.Sensor.System.Reading.{bulks_after, bulks_read}
use linux_sensors.Sensor.System.Flow.{
  somes-end, held_bulks, held_packs, held_bulks-next, held_packs-next, packs_of, bulks_of, Flow,
  flow, added, Flow-collect, Flow-pack, Flow-dispatch, Flow-drop, none_lost, none_new, some_lost,
  round_flow, take_bulks_flow, take_packs_flow, send_pack_flow,
}

module _ (s : System) where
  next_bulks :
      (left : List BulkMessage)
      → s.worker ≡ packing left
      → somes (held_bulks (worker_next left)) ++ somes s.stream_queue.queue.items ≡ bulks_of s
  next_bulks left e =
      ap (λ h. somes h ++ somes s.stream_queue.queue.items) (held_bulks-next left)
      ∙ ap (λ w. somes (held_bulks w) ++ somes s.stream_queue.queue.items) (sym e)

  pack_flow :
      (left : List BulkMessage) (full : Bool)
      → s.worker ≡ packing left
      → ready s.aggregator ≡ full
      → flow (worker_pack left s) ≡ flow s
  unfolding worker_pack make_new_pack send enqueue
  pack_flow left true e f =
      rw (f, worker_pack)
        (ap₂ (λ p b. Flow s.dispatched p [] b) (send_pack_flow s s.aggregator.items)
            (next_bulks left e)
          ∙ Flow-pack s.dispatched (packs_of s) s.aggregator.items (bulks_of s))
  pack_flow left false e f =
      rw (f, worker_pack)
        (ap (Flow s.dispatched (packs_of s) s.aggregator.items) (next_bulks left e))

  flush_flow :
      (items : Pack) (agg : DataAggregator SysParamsRecord)
      → s.worker ≡ flushing
      → s.aggregator.items ≡ items
      → agg.items ≡ []
      → flow (flushed items agg s) ≡ flow s
  unfolding flushed send enqueue
  flush_flow [] agg e f g =
      ap₂ (Flow s.dispatched (packs_of s)) (g ∙ sym f)
        (ap (λ w. somes (held_bulks w) ++ somes s.stream_queue.queue.items) (sym e))
  flush_flow (r ∷ rs) agg e f g =
      ap₂ (λ p i. Flow s.dispatched p i (somes s.stream_queue.queue.items))
        (send_pack_flow s (r ∷ rs)) g
      ∙ ap (Flow s.dispatched (packs_of s ++ (r ∷ rs) ∷ []) [])
          (ap (λ w. somes (held_bulks w) ++ somes s.stream_queue.queue.items) (sym e))
      ∙ Flow-pack s.dispatched (packs_of s) (r ∷ rs) (bulks_of s)
      ∙ ap (λ i. Flow s.dispatched (packs_of s) i (bulks_of s)) (sym f)

  collect_flow :
      (bulk : EventsBulk) (left : List BulkMessage) (records : Pack)
      → s.worker ≡ working (some bulk ∷ left)
      → collect_bulk bulk ≡ ok records
      → flow (worker_collect records left s) ≡ flow s
  unfolding worker_collect
  collect_flow bulk left records e done =
      let behind = somes left ++ somes s.stream_queue.queue.items in
      ap (λ i. Flow s.dispatched (packs_of s) i behind)
        (append_all-items records s.aggregator
          ∙ ap (λ r. s.aggregator.items ++ r) (sym (collected_lem bulk records done)))
      ∙ Flow-collect s.dispatched (packs_of s) s.aggregator.items bulk behind
      ∙ ap
          (λ w.
            Flow s.dispatched (packs_of s) s.aggregator.items
              (somes (held_bulks w) ++ somes s.stream_queue.queue.items))
          (sym e)

  dispatch_flow :
      (pack : Pack) (left : List PackMessage)
      → s.sender ≡ sending (some pack ∷ left)
      → flow (sender_dispatch pack left s) ≡ flow s
  unfolding sender_dispatch
  dispatch_flow pack left e =
      let behind = somes s.result_queue.queue.items in
      ap (λ h. Flow (s.dispatched ++ pack ∷ []) (somes h ++ behind) s.aggregator.items (bulks_of s))
        (held_packs-next left)
      ∙ Flow-dispatch s.dispatched pack (somes left ++ behind) s.aggregator.items (bulks_of s)
      ∙ ap (λ w. Flow s.dispatched (somes (held_packs w) ++ behind) s.aggregator.items (bulks_of s))
          (sym e)

  -- The packs that the sender holds are dropped.
  drop_flow :
      Sublist
        (Flow s.dispatched (somes s.result_queue.queue.items) s.aggregator.items (bulks_of s))
        (flow s)
  drop_flow =
      Flow-drop s.dispatched (somes (held_packs s.sender)) (somes s.result_queue.queue.items)
        s.aggregator.items [] (bulks_of s)

Step-Flow : {s t : System} (st : Step s t) → Sublist (flow t) (flow s ++ records_of (added st))
unfolding reader_end worker_flush make_new_pack worker_tell_workers worker_tell_sender sender_finish
    send enqueue
Step-Flow {s} (read_round r e) = none_lost s _ _ (round_flow s r)
Step-Flow {s} (read_end r e) = none_new s _ (
    ap (λ b. Flow s.dispatched (packs_of s) s.aggregator.items (somes (held_bulks s.worker) ++ b))
      (somes-end s.stream_queue.queue.items))
Step-Flow {s} (take_bulks ms rest e got) =
    none_new s _
      (ap (Flow s.dispatched (packs_of s) s.aggregator.items) (take_bulks_flow s ms rest e got))
Step-Flow {s} (collect_one bulk left records e done) =
    none_new s _ (collect_flow s bulk left records e done)
Step-Flow {s} (pack_records left e) = none_new s _ (pack_flow s left (ready s.aggregator) e refl)
Step-Flow {s} (meet_end left e) = some_lost s _ (
    Flow-drop s.dispatched [] (packs_of s) s.aggregator.items (somes (held_bulks s.worker))
      (somes s.stream_queue.queue.items))
Step-Flow {s} (flush e) = none_new s _ (flush_flow s s.aggregator.items _ e refl refl)
Step-Flow {s} (tell_workers e) = none_new s _ (
    ap (Flow s.dispatched (packs_of s) s.aggregator.items) (
      somes-end s.stream_queue.queue.items
      ∙ ap (λ w. somes (held_bulks w) ++ somes s.stream_queue.queue.items) (sym e)))
Step-Flow {s} (tell_sender clock e) = none_new s _ (
    ap₂ (λ p b. Flow s.dispatched (somes (held_packs s.sender) ++ p) s.aggregator.items b)
      (somes-end s.result_queue.queue.items)
      (ap (λ w. somes (held_bulks w) ++ somes s.stream_queue.queue.items) (sym e)))
Step-Flow {s} (take_packs ms rest e got) = none_new s _ (
    ap (λ p. Flow s.dispatched p s.aggregator.items (bulks_of s)) (take_packs_flow s ms rest e got))
Step-Flow {s} (dispatch_pack pack left e) = none_new s _ (dispatch_flow s pack left e)
Step-Flow {s} (dispatch_throws pack left e) = some_lost s _ (drop_flow s)
Step-Flow {s} (finish clock left e) = some_lost s _ (drop_flow s)

bulks_after-added :
    {s t : System} (bulks : List EventsBulk) (st : Step s t)
    → bulks_after bulks st ≡ bulks ++ added st
unfolding bulks_after
bulks_after-added bulks (read_round r e) = refl
bulks_after-added bulks (read_end r e) = sym (append-nil bulks)
bulks_after-added bulks (take_bulks ms rest e got) = sym (append-nil bulks)
bulks_after-added bulks (collect_one bulk left records e done) = sym (append-nil bulks)
bulks_after-added bulks (pack_records left e) = sym (append-nil bulks)
bulks_after-added bulks (meet_end left e) = sym (append-nil bulks)
bulks_after-added bulks (flush e) = sym (append-nil bulks)
bulks_after-added bulks (tell_workers e) = sym (append-nil bulks)
bulks_after-added bulks (tell_sender clock e) = sym (append-nil bulks)
bulks_after-added bulks (take_packs ms rest e got) = sym (append-nil bulks)
bulks_after-added bulks (dispatch_pack pack left e) = sym (append-nil bulks)
bulks_after-added bulks (dispatch_throws pack left e) = sym (append-nil bulks)
bulks_after-added bulks (finish clock left e) = sym (append-nil bulks)

module _ (reader : Reader) (worker_watch sender_watch : EventsWatch) (pack_size : ℕ) where
  Reach-Flow :
      {s : System} (r : Reach (start reader worker_watch sender_watch pack_size) s)
      → Sublist (flow s) (records_of (bulks_read r))
  unfolding start empty_queue new_aggregator bulks_read
  Reach-Flow here = Sublist.refl []
  Reach-Flow (next r st) = Sublist.trans (Step-Flow st) (
      subst (Sublist _)
        (sym (
          ap records_of (bulks_after-added (bulks_read r) st)
          ∙ records_of-append (bulks_read r) (added st)))
        (Sublist.append (Reach-Flow r) (Sublist.refl (records_of (added st)))))

  -- In every state that the threads reach, however many dispatches have thrown, the packs handed to
  -- the stream without an exception are a sublist of the records of the bulks read so far: in their
  -- order, and no record more often than it was read.
  pub dispatched_sublist :
      {s : System} (r : Reach (start reader worker_watch sender_watch pack_size) s)
      → Sublist (joined s.dispatched) (records_of (bulks_read r))
  dispatched_sublist {s} r =
      Sublist.trans
        (subst (λ t. Sublist t (flow s)) (append-nil (joined s.dispatched))
          (Sublist.append (Sublist.refl (joined s.dispatched)) (nil-sublist _)))
        (Reach-Flow r)
