-- ===== src/Sensor/System/Queues.antt =====
-- What the queues hold after a step, in terms of the bulks and packs that are under way.
use linux_sensors.Base.{
  ◌≡◌, List, [], ◌∷◌, ◌++◌, Bool, true, false, Option, none, append_assoc, append-nil, ap, sym, ◌∙◌,
}
use linux_sensors.Sensor.Reader.{EventsBulk}
use linux_sensors.Sensor.System.{
  Pack, BulkMessage, PackMessage, ReaderPhase, read_done, WorkerPhase, worker_waiting, working,
  packing, work_done, SenderPhase, sender_waiting, sending, send_done, pointers,
}
use linux_sensors.Sensor.System.Invariant.{
  sentinel, reader_over, worker_over, StreamIs, ResultIs, pointers-append,
}

module _ {ℓ} {A : Type ℓ} where
  more_pointers :
      (queue : List (Option A)) (left new : List A) {over over' : Bool}
      → over ≡ false
      → over' ≡ false
      → queue ≡ pointers left ++ sentinel over
      → queue ++ pointers new ≡ pointers (left ++ new) ++ sentinel over'
  more_pointers queue left new e e' h =
      rw (h, e, e', append-nil, append-nil) (sym (pointers-append left new))

  end_pointers :
      (queue : List (Option A)) (left : List A) {over : Bool}
      → over ≡ false
      → queue ≡ pointers left ++ sentinel over
      → queue ++ none ∷ [] ≡ pointers left ++ sentinel true
  end_pointers queue left e h = rw (h, e, append-nil)

-- More bulks join the queue while the reader runs.
pub StreamIs-more :
    (reader reader' : ReaderPhase) (worker : WorkerPhase) (queue : List BulkMessage)
    (left new : List EventsBulk)
    → reader_over reader ≡ false
    → reader_over reader' ≡ false
    → StreamIs reader worker queue left
    → StreamIs reader' worker (queue ++ pointers new) (left ++ new)
StreamIs-more reader reader' worker_waiting queue left new e e' h =
    more_pointers queue left new e e' h
StreamIs-more reader reader' (working ms) queue left new e e' h =
    sym (append_assoc ms queue (pointers new)) ∙ more_pointers (ms ++ queue) left new e e' h
StreamIs-more reader reader' (packing ms) queue left new e e' h =
    sym (append_assoc ms queue (pointers new)) ∙ more_pointers (ms ++ queue) left new e e' h
StreamIs-more reader reader' _ queue left new e e' h = cc (e, ap reader_over h.1)

-- The reader ends.
pub StreamIs-end :
    (reader : ReaderPhase) (worker : WorkerPhase) (queue : List BulkMessage)
    (left : List EventsBulk)
    → reader_over reader ≡ false
    → StreamIs reader worker queue left
    → StreamIs read_done worker (queue ++ none ∷ []) left
StreamIs-end reader worker_waiting queue left e h = end_pointers queue left e h
StreamIs-end reader (working ms) queue left e h =
    sym (append_assoc ms queue (none ∷ [])) ∙ end_pointers (ms ++ queue) left e h
StreamIs-end reader (packing ms) queue left e h =
    sym (append_assoc ms queue (none ∷ [])) ∙ end_pointers (ms ++ queue) left e h
StreamIs-end reader _ queue left e h = cc (e, ap reader_over h.1)

-- One more pack joins the result queue.
pub ResultIs-more :
    (worker worker' : WorkerPhase) (sender : SenderPhase) (queue : List PackMessage)
    (packs new : List Pack)
    → worker_over worker ≡ false
    → worker_over worker' ≡ false
    → ResultIs worker sender queue packs
    → ResultIs worker' sender (queue ++ pointers new) (packs ++ new)
ResultIs-more worker worker' sender_waiting queue packs new e e' h =
    more_pointers queue packs new e e' h
ResultIs-more worker worker' (sending ms) queue packs new e e' h =
    sym (append_assoc ms queue (pointers new)) ∙ more_pointers (ms ++ queue) packs new e e' h
ResultIs-more worker worker' send_done queue packs new e e' h = cc (e, ap worker_over h.1)

pub ResultIs-same :
    (worker worker' : WorkerPhase) (sender : SenderPhase) (queue : List PackMessage)
    (packs : List Pack)
    → worker_over worker ≡ false
    → worker_over worker' ≡ false
    → ResultIs worker sender queue packs
    → ResultIs worker' sender queue packs
ResultIs-same worker worker' sender_waiting queue packs e e' h = rw e' (rw e at h)
ResultIs-same worker worker' (sending ms) queue packs e e' h = rw e' (rw e at h)
ResultIs-same worker worker' send_done queue packs e e' h = cc (e, ap worker_over h.1)

-- The worker ends.
pub ResultIs-end :
    (worker : WorkerPhase) (sender : SenderPhase) (queue : List PackMessage) (packs : List Pack)
    → worker_over worker ≡ false
    → ResultIs worker sender queue packs
    → ResultIs work_done sender (queue ++ none ∷ []) packs
ResultIs-end worker sender_waiting queue packs e h = end_pointers queue packs e h
ResultIs-end worker (sending ms) queue packs e h =
    sym (append_assoc ms queue (none ∷ [])) ∙ end_pointers (ms ++ queue) packs e h
ResultIs-end worker send_done queue packs e h = cc (e, ap worker_over h.1)
