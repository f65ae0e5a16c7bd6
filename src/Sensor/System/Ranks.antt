-- ===== src/Sensor/System/Ranks.antt =====
-- What each thread has left to do: a step of the reader makes its rank fall, one of the worker leaves
-- the reader's and lets its own fall, and one of the sender lets its own fall and leaves the others.
use linux_sensors.Base.{
  ℕ, ◌+◌, ◌*◌, ◌<◌, ◌≡◌, ◌⊎◌, inl, inr, refl, ap, sym, subst, ◌∙◌, List, [], ◌∷◌, Bool, true, false,
  some, length, length-append, arith,
}
use linux_sensors.Trace.{SysParamsRecord}
use linux_sensors.Queue.{MessageQueue, receive_bulk}
use linux_sensors.Queue.Order.{receive_bulk-items, receive_bulk-takes}
use linux_sensors.Sensor.Aggregator.{DataAggregator}
use linux_sensors.Sensor.Reader.{Reader, read_bulks, read_buffer_size, bulk_capacity}
use linux_sensors.Sensor.Reader.Rounds.{Shorter, read_bulks-Shorter}
use linux_sensors.Sensor.System.{
  Pack, BulkMessage, PackMessage, ReaderPhase, reading, ending, read_done, WorkerPhase,
  worker_waiting, working, packing, flushing, telling_workers, telling_sender, work_done,
  SenderPhase, sender_waiting, sending, send_done, System, Step, read_round, read_end, take_bulks,
  collect_one, pack_records, meet_end, flush, tell_workers, tell_sender, take_packs, dispatch_pack,
  dispatch_throws, finish, reader_phase, reader_round, reader_end, worker_collect, worker_next,
  worker_pack, flushed, worker_flush, worker_tell_workers, worker_tell_sender, sender_next,
  sender_dispatch, sender_finish,
}

abbrev reader_rank : ReaderPhase → ℕ
reader_rank (reading r) = 2 + length r.pipe.rest
reader_rank (ending r) = 1
reader_rank read_done = 0

-- From its phase and the length of its queue.
abbrev worker_rank : WorkerPhase → ℕ → ℕ
worker_rank worker_waiting n = 3 * n + 10
worker_rank (working ms) n = 3 * n + 2 * length ms + 10
worker_rank (packing ms) n = 3 * n + 2 * length ms + 11
worker_rank flushing n = 3
worker_rank telling_workers n = 2
worker_rank telling_sender n = 1
worker_rank work_done n = 0

abbrev sender_rank : SenderPhase → ℕ → ℕ
sender_rank sender_waiting n = 2 * n + 2
sender_rank (sending ms) n = 2 * n + length ms + 2
sender_rank send_done n = 0

abbrev pub reader_left : System → ℕ
reader_left s = reader_rank s.reader

abbrev pub worker_left : System → ℕ
worker_left s = worker_rank s.worker (length s.stream_queue.queue.items)

abbrev pub sender_left : System → ℕ
sender_left s = sender_rank s.sender (length s.result_queue.queue.items)

-- A reader in its loop has an open stream before its end.
abbrev pub RunsOn : ReaderPhase → Type 0
RunsOn (reading r) = (r.pipe.opened ≡ true) × (r.pipe.eof ≡ false)
RunsOn _ = Unit

abbrev pub Falls : System → System → Type 0
Falls s t =
    (reader_left t < reader_left s)
    ⊎ ((reader_left t ≡ reader_left s)
        × ((worker_left t < worker_left s)
            ⊎ ((worker_left t ≡ worker_left s) × (sender_left t < sender_left s))))

round-Falls :
    (r : Reader)
    → RunsOn (reading r)
    → let (_, r') = read_bulks read_buffer_size bulk_capacity r in
      (reader_rank (reader_phase r'.pipe.eof r') < reader_rank (reading r))
      × RunsOn (reader_phase r'.pipe.eof r')
unfolding reader_phase
round-Falls r (h, e) =
    let less = read_bulks-Shorter read_buffer_size 511 r h e in
    go (read_bulks read_buffer_size bulk_capacity r).1 _ refl less
  where
    go :
        (r' : Reader) (b : Bool)
        → r'.pipe.eof ≡ b
        → Shorter read_buffer_size r.pipe r'.pipe
        → (reader_rank (reader_phase b r') < reader_rank (reading r)) × RunsOn (reader_phase b r')
    go r' true same less = (omega arith, tt)
    go r' false same less = (ground (arith, same, less.shorter), (less.opened, same))

worker_next-rank :
    (ms : List BulkMessage) (n : ℕ) → worker_rank (worker_next ms) n ≡ 3 * n + 2 * length ms + 10
unfolding worker_next
worker_next-rank [] n = omega arith
worker_next-rank (m ∷ ms) n = refl

sender_next-rank :
    (ms : List PackMessage) (n : ℕ) → sender_rank (sender_next ms) n ≡ 2 * n + length ms + 2
unfolding sender_next
sender_next-rank [] n = omega arith
sender_next-rank (m ∷ ms) n = refl

module _ {ℓ} {A : Type ℓ} (q : MessageQueue A) (ms : List A) (rest : MessageQueue A)
    (got : receive_bulk bulk_capacity q ≡ some (ms, rest)) where
  taken : length q.queue.items ≡ length ms + length rest.queue.items
  taken =
      ap length (sym (receive_bulk-items bulk_capacity q ms rest got))
      ∙ length-append ms rest.queue.items

  taken_some : 0 < length ms
  taken_some = receive_bulk-takes 511 q ms rest got

worker_pack-left :
    (ms : List BulkMessage) (s : System)
    → ((worker_pack ms s).reader ≡ s.reader)
      × (worker_left (worker_pack ms s)
          ≡ 3 * length s.stream_queue.queue.items + 2 * length ms + 10)
unfolding worker_pack
worker_pack-left ms s = ground (arith, worker_next-rank ms (length s.stream_queue.queue.items))

flushed-left :
    (items : Pack) (agg : DataAggregator SysParamsRecord) (s : System)
    → ((flushed items agg s).reader ≡ s.reader) × (worker_left (flushed items agg s) ≡ 2)
unfolding flushed
flushed-left [] agg s = (refl, refl)
flushed-left (r ∷ rs) agg s = (refl, refl)

module _ (s : System) where
  -- A step of the worker, and one of the sender.
  worker-Falls :
      {w : WorkerPhase} (t : System)
      → s.worker ≡ w
      → t.reader ≡ s.reader
      → worker_left t < worker_rank w (length s.stream_queue.queue.items)
      → RunsOn s.reader
      → Falls s t × RunsOn t.reader
  worker-Falls t e same less runs = (
    inr (
      ap reader_rank same,
      inl (
          subst (λ w. worker_left t < worker_rank w (length s.stream_queue.queue.items)) (sym e)
            less),
    ),
    subst RunsOn (sym same) runs,
  )

  sender-Falls :
      {p : SenderPhase} (t : System)
      → s.sender ≡ p
      → t.reader ≡ s.reader
      → worker_left t ≡ worker_left s
      → sender_left t < sender_rank p (length s.result_queue.queue.items)
      → RunsOn s.reader
      → Falls s t × RunsOn t.reader
  sender-Falls t e same same' less runs = (
    inr (
      ap reader_rank same,
      inr (
        same',
        subst (λ w. sender_left t < sender_rank w (length s.result_queue.queue.items)) (sym e) less,
      ),
    ),
    subst RunsOn (sym same) runs,
  )

pub Step-Falls : {s t : System} → Step s t → RunsOn s.reader → Falls s t × RunsOn t.reader
unfolding reader_round reader_end worker_collect worker_flush worker_tell_workers worker_tell_sender
    sender_dispatch sender_finish
Step-Falls {s} (read_round r e) runs =
    let (less, on) = round-Falls r (subst RunsOn e runs) in
    (inl (subst (λ p. reader_left (reader_round r s) < reader_rank p) (sym e) less), on)
Step-Falls (read_end r e) runs = (inl (subst (λ p. 0 < reader_rank p) (sym e) (omega arith)), tt)
Step-Falls {s} {t} (take_bulks ms rest e got) runs =
    worker-Falls s t e refl
      (omega (
        arith,
        worker_next-rank ms (length rest.queue.items),
        taken s.stream_queue ms rest got,
        taken_some s.stream_queue ms rest got,
      ))
      runs
Step-Falls {s} {t} (collect_one bulk left records e done) runs =
    worker-Falls s t e refl (omega arith) runs
Step-Falls {s} {t} (pack_records left e) runs =
    let (same, rank) = worker_pack-left left s in worker-Falls s t e same (omega (arith, rank)) runs
Step-Falls {s} {t} (meet_end left e) runs = worker-Falls s t e refl (omega arith) runs
Step-Falls {s} {t} (flush e) runs =
    let (same, rank) = flushed-left s.aggregator.items _ s in
    worker-Falls s t e same (omega (arith, rank)) runs
Step-Falls {s} {t} (tell_workers e) runs = worker-Falls s t e refl (omega arith) runs
Step-Falls {s} {t} (tell_sender clock e) runs = worker-Falls s t e refl (omega arith) runs
Step-Falls {s} {t} (take_packs ms rest e got) runs =
    sender-Falls s t e refl refl
      (omega (
        arith,
        sender_next-rank ms (length rest.queue.items),
        taken s.result_queue ms rest got,
        taken_some s.result_queue ms rest got,
      ))
      runs
Step-Falls {s} {t} (dispatch_pack pack left e) runs =
    sender-Falls s t e refl refl
      (omega (arith, sender_next-rank left (length s.result_queue.queue.items))) runs
Step-Falls {s} {t} (dispatch_throws pack left e) runs =
    sender-Falls s t e refl refl (omega arith) runs
Step-Falls {s} {t} (finish clock left e) runs = sender-Falls s t e refl refl (omega arith) runs
