-- ===== src/Sensor/System.antt =====
-- The threads of include/sensor/multithreaded_sensor.h over their two queues: `_read_stream`,
-- `_process_traces` and `_send_stream`, interleaved in any order. A queue's operation is one step,
-- and so is the work of a thread between two of them.
mod State
pub mod Invariant
pub mod Queues
pub mod Steps
pub mod Spares
pub mod Reading
pub mod Delivery
pub mod Proper
pub mod Progress
pub mod Ranks
pub mod Ends
pub mod Refusals
pub mod Parsed
pub mod Streamed
pub mod Counts
pub mod Throw
pub mod Flow
pub mod Losses
pub mod Lost
pub use State.*
use linux_sensors.Base.{
  ℕ, ◌≡◌, List, [], ◌∷◌, ◌++◌, Bool, true, false, Option, none, some, Outcome, ok, length,
}
use linux_sensors.Base.Int.{pos, to_int}
use linux_sensors.Trace.{SysParamsRecord, collect}
use linux_sensors.Queue.{empty_queue, MessageQueue, send, send_bulk, receive_bulk}
use linux_sensors.Sensor.Aggregator.{
  DataAggregator, new_aggregator, append_all, ready, make_new_pack,
}
use linux_sensors.Sensor.Watch
use linux_sensors.Sensor.Watch.{EventsWatch}
use linux_sensors.Sensor.Reader.{EventsBulk, Reader, read_bulks, read_buffer_size, bulk_capacity}

-- `_tracer->collect(bulk_lines, *_data)`
unfoldable pub collect_bulk : EventsBulk → Outcome Pack
collect_bulk bulk = collect bulk.buffer bulk.lines

-- The pointers to the bulks of one round.
abbrev pub pointers {ℓ} : {A : Type ℓ} → List A → List (Option A)
pointers [] = []
pointers (x ∷ xs) = some x ∷ pointers xs

unfoldable pub reader_phase : Bool → Reader → ReaderPhase
reader_phase true r = ending r
reader_phase false r = reading r

-- One round of the outer loop of `_read_stream`, up to and with its `enqueue_bulk`.
unfoldable pub reader_round : Reader → System → System
unfolding send_bulk reader_phase
reader_round r s =
    let (bulks, r') = read_bulks read_buffer_size bulk_capacity r in
    record s {
      reader = reader_phase r'.pipe.eof r';
      stream_queue = send_bulk (pointers bulks) (length bulks) s.stream_queue;
    }

-- `_stream_queue->enqueue(nullptr)`, and the return.
unfoldable pub reader_end : System → System
unfolding send
reader_end s = record s { reader = read_done; stream_queue = send none s.stream_queue }

-- A bulk was collected: its records join the aggregator.
unfoldable pub worker_collect : Pack → List BulkMessage → System → System
unfolding append_all
worker_collect records left s = record s {
  worker = packing left;
  aggregator = append_all records s.aggregator;
}

unfoldable pub worker_next : List BulkMessage → WorkerPhase
worker_next [] = worker_waiting
worker_next (m ∷ left) = working (m ∷ left)

-- `if (_data->ready())`: a full pack goes to the result queue.
unfoldable pub worker_pack : List BulkMessage → System → System
unfolding ready make_new_pack send worker_next
worker_pack left s =
    let (pack, agg) = make_new_pack s.aggregator in
    elim (ready s.aggregator) [
      | true ↦ record s {
        worker = worker_next left;
        aggregator = agg;
        result_queue = send (some pack) s.result_queue;
      }
      | false ↦ record s { worker = worker_next left }
    ]

-- `if (!ptr->empty()) _result_queue->enqueue(ptr)`
unfoldable pub flushed : Pack → DataAggregator SysParamsRecord → System → System
unfolding send
flushed [] agg s = record s { worker = telling_workers; aggregator = agg }
flushed (r ∷ rs) agg s = record s {
  worker = telling_workers;
  aggregator = agg;
  result_queue = send (some (r ∷ rs)) s.result_queue;
}

-- After a nullptr: what was collected goes to the result queue, unless it is empty.
unfoldable pub worker_flush : System → System
unfolding make_new_pack flushed
worker_flush s = let (pack, agg) = make_new_pack s.aggregator in flushed pack agg s

unfoldable pub worker_tell_workers : System → System
unfolding send
worker_tell_workers s = record s {
  worker = telling_sender;
  stream_queue = send none s.stream_queue;
}

unfoldable pub worker_tell_sender : ℕ → System → System
unfolding send Watch.stop
worker_tell_sender clock s = record s {
  worker = work_done;
  worker_watch = Watch.stop clock s.worker_watch;
  result_queue = send none s.result_queue;
}

unfoldable pub sender_next : List PackMessage → SenderPhase
sender_next [] = sender_waiting
sender_next (m ∷ left) = sending (m ∷ left)

-- `_stream->dispatch(*current)` returned.
unfoldable pub sender_dispatch : Pack → List PackMessage → System → System
unfolding sender_next Watch.add
sender_dispatch pack left s = record s {
  sender = sender_next left;
  sender_watch = Watch.add (to_int (pos (length pack))) s.sender_watch;
  dispatched = s.dispatched ++ pack ∷ [];
}

-- A nullptr: `*_finished = true`, and the return.
unfoldable pub sender_finish : ℕ → System → System
unfolding Watch.stop
sender_finish clock s = record s {
  sender = send_done;
  sender_watch = Watch.stop clock s.sender_watch;
  finished = true;
}

-- `start`: the reader at its first round, the others at their queues. The watches were started by
-- their threads, at the readings of the clock that the arguments hold.
unfoldable pub start : Reader → EventsWatch → EventsWatch → ℕ → System
unfolding empty_queue new_aggregator
start reader worker_watch sender_watch pack_size = record {
  reader = reading reader;
  stream_queue = record { queue = empty_queue };
  worker = worker_waiting;
  aggregator = new_aggregator pack_size;
  worker_watch = worker_watch;
  result_queue = record { queue = empty_queue };
  sender = sender_waiting;
  sender_watch = sender_watch;
  dispatched = [];
  finished = false;
  failed = false;
}

-- The steps of the threads. A thread that waits has no step while its queue is empty. The handler
-- of the sender drops the packs that were dequeued with the one whose dispatch threw.
pub data Step (s : System) : System → Type 0 where
  read_round : (r : Reader) → s.reader ≡ reading r → Step s (reader_round r s)
  read_end : (r : Reader) → s.reader ≡ ending r → Step s (reader_end s)
  take_bulks :
      (bulks : List BulkMessage) (rest : MessageQueue BulkMessage)
      → s.worker ≡ worker_waiting
      → receive_bulk bulk_capacity s.stream_queue ≡ some (bulks, rest)
      → Step s (record s { worker = worker_next bulks; stream_queue = rest })
  collect_one :
      (bulk : EventsBulk) (left : List BulkMessage) (records : Pack)
      → s.worker ≡ working (some bulk ∷ left)
      → collect_bulk bulk ≡ ok records
      → Step s (worker_collect records left s)
  pack_records : (left : List BulkMessage) → s.worker ≡ packing left → Step s (worker_pack left s)
  meet_end :
      (left : List BulkMessage)
      → s.worker ≡ working (none ∷ left)
      → Step s (record s { worker = flushing })
  flush : s.worker ≡ flushing → Step s (worker_flush s)
  tell_workers : s.worker ≡ telling_workers → Step s (worker_tell_workers s)
  tell_sender : (clock : ℕ) → s.worker ≡ telling_sender → Step s (worker_tell_sender clock s)
  take_packs :
      (packs : List PackMessage) (rest : MessageQueue PackMessage)
      → s.sender ≡ sender_waiting
      → receive_bulk bulk_capacity s.result_queue ≡ some (packs, rest)
      → Step s (record s { sender = sender_next packs; result_queue = rest })
  dispatch_pack :
      (pack : Pack) (left : List PackMessage)
      → s.sender ≡ sending (some pack ∷ left)
      → Step s (sender_dispatch pack left s)
  dispatch_throws :
      (pack : Pack) (left : List PackMessage)
      → s.sender ≡ sending (some pack ∷ left)
      → Step s (record s { sender = sender_waiting; failed = true })
  finish :
      (clock : ℕ) (left : List PackMessage)
      → s.sender ≡ sending (none ∷ left)
      → Step s (sender_finish clock s)

pub data Reach (s : System) : System → Type 0 where
  here : Reach s s
  next : {t u : System} → Reach s t → Step t u → Reach s u
