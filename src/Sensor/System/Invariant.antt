-- ===== src/Sensor/System/Invariant.antt =====
-- Where the records of the text are while the threads of the sensor run: each is dispatched, in a
-- pack, in the aggregator, or in a bulk that was not collected yet.
use mathlib.Core.List.{Perm}
use linux_sensors.Base.{
  ◌≡◌, List, [], ◌∷◌, ◌++◌, Bool, true, false, Option, ok, none, some, refl, append_assoc, ap, sym,
  ◌∙◌, concat_map, concat_map-append,
}
use linux_sensors.Sensor.Reader.{EventsBulk}
use linux_sensors.Sensor.System.{
  Pack, BulkMessage, PackMessage, ReaderPhase, read_done, WorkerPhase, worker_waiting, working,
  packing, telling_workers, telling_sender, work_done, SenderPhase, sender_waiting, sending,
  send_done, System, collect_bulk, pointers, worker_next, sender_next,
}

-- The records that a bulk yields; none if its collection does not return.
unfoldable pub collected : EventsBulk → Pack
collected bulk = elim (collect_bulk bulk) [ ok records ↦ records | _ ↦ [] ]

abbrev pub records_of : List EventsBulk → Pack
records_of = concat_map collected

abbrev pub joined : List Pack → Pack
joined [] = []
joined (p ∷ ps) = p ++ joined ps

-- The messages that are no nullptr.
abbrev pub somes {ℓ} : {A : Type ℓ} → List (Option A) → List A
somes [] = []
somes (none ∷ ms) = somes ms
somes (some x ∷ ms) = x ∷ somes ms

-- The nullptr behind the messages of a thread that has ended.
abbrev pub sentinel {ℓ} : {A : Type ℓ} → Bool → List (Option A)
sentinel true = none ∷ []
sentinel false = []

abbrev pub reader_over : ReaderPhase → Bool
reader_over read_done = true
reader_over _ = false

abbrev pub worker_over : WorkerPhase → Bool
worker_over work_done = true
worker_over _ = false

-- The bulks that the worker has to collect: those of its messages, then those of the queue.
abbrev pub StreamIs : ReaderPhase → WorkerPhase → List BulkMessage → List EventsBulk → Type 0
StreamIs reader worker_waiting queue left = queue ≡ pointers left ++ sentinel (reader_over reader)
StreamIs reader (working ms) queue left =
    ms ++ queue ≡ pointers left ++ sentinel (reader_over reader)
StreamIs reader (packing ms) queue left =
    ms ++ queue ≡ pointers left ++ sentinel (reader_over reader)
StreamIs reader _ queue left = (left ≡ []) × (reader ≡ read_done)

-- The packs that the sender has to dispatch.
abbrev pub ResultIs : WorkerPhase → SenderPhase → List PackMessage → List Pack → Type 0
ResultIs worker sender_waiting queue packs = queue ≡ pointers packs ++ sentinel (worker_over worker)
ResultIs worker (sending ms) queue packs =
    ms ++ queue ≡ pointers packs ++ sentinel (worker_over worker)
ResultIs worker send_done queue packs = (packs ≡ []) × (worker ≡ work_done)

-- From the flush on the aggregator is empty.
abbrev pub Drained : WorkerPhase → Pack → Type 0
Drained telling_workers items = items ≡ []
Drained telling_sender items = items ≡ []
Drained work_done items = items ≡ []
Drained _ items = Unit

-- Of the records of the bulks, `kept` are dispatched or under way, all of them if no dispatch has
-- thrown; the others are `lost`.
pub record Held (failed : Bool) (bulks : List EventsBulk) (lost kept : Pack) : Type 0 where
  pub total : failed ≡ false → kept ≡ records_of bulks
  pub parts : Perm (kept ++ lost) (records_of bulks)

-- While no throw of a dispatch has dropped a nullptr, with `bulks` read so far, and `lost` the
-- records of the batches whose dispatch threw.
pub record Inv (bulks : List EventsBulk) (lost : Pack) (s : System) : Type 0 where
  pub left : List EventsBulk
  pub suffix : (gone : List EventsBulk) × (gone ++ left ≡ bulks)
  pub packs : List Pack
  pub stream : StreamIs s.reader s.worker s.stream_queue.queue.items left
  pub result : ResultIs s.worker s.sender s.result_queue.queue.items packs
  pub drained : Drained s.worker s.aggregator.items
  pub held :
      Held s.failed bulks lost
        (joined s.dispatched ++ joined packs ++ s.aggregator.items ++ records_of left)
  pub over : s.finished ≡ true → s.sender ≡ send_done

module _ {ℓ} {A : Type ℓ} where
  pub pointers-append : (xs ys : List A) → pointers (xs ++ ys) ≡ pointers xs ++ pointers ys
  pointers-append [] ys = refl
  pointers-append (x ∷ xs) ys = ap (λ t. some x ∷ t) (pointers-append xs ys)

  -- The first message, if it is no nullptr, is the first pointer.
  pub pointers_head :
      (left : List A) (over : Bool) (x : A) (ms : List (Option A))
      → some x ∷ ms ≡ pointers left ++ sentinel over
      → (rest : List A) × (left ≡ x ∷ rest) × (ms ≡ pointers rest ++ sentinel over)
  pointers_head [] true x ms h = cc
  pointers_head [] false x ms h = cc
  pointers_head (y ∷ ys) over x ms h = (ys, cc, cc)

  -- A nullptr comes last, and only once the thread that sends has ended.
  pub pointers_end :
      (left : List A) (over : Bool) (ms : List (Option A))
      → none ∷ ms ≡ pointers left ++ sentinel over
      → (left ≡ []) × (over ≡ true) × (ms ≡ [])
  pointers_end [] true ms h = (refl, refl, cc)
  pointers_end [] false ms h = cc
  pointers_end (y ∷ ys) over ms h = cc

pub joined-append : (xs ys : List Pack) → joined (xs ++ ys) ≡ joined xs ++ joined ys
joined-append [] ys = refl
joined-append (x ∷ xs) ys =
    ap (λ t. x ++ t) (joined-append xs ys) ∙ sym (append_assoc x (joined xs) (joined ys))

pub records_of-append :
    (xs ys : List EventsBulk) → records_of (xs ++ ys) ≡ records_of xs ++ records_of ys
records_of-append = concat_map-append collected

pub StreamIs-next :
    (reader : ReaderPhase) (ms queue : List BulkMessage) (left : List EventsBulk)
    → ms ++ queue ≡ pointers left ++ sentinel (reader_over reader)
    → StreamIs reader (worker_next ms) queue left
unfolding worker_next
StreamIs-next reader [] queue left h = h
StreamIs-next reader (m ∷ ms) queue left h = h

pub ResultIs-next :
    (worker : WorkerPhase) (ms queue : List PackMessage) (packs : List Pack)
    → ms ++ queue ≡ pointers packs ++ sentinel (worker_over worker)
    → ResultIs worker (sender_next ms) queue packs
unfolding sender_next
ResultIs-next worker [] queue packs h = h
ResultIs-next worker (m ∷ ms) queue packs h = h
