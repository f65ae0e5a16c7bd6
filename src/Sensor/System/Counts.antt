-- ===== src/Sensor/System/Counts.antt =====
-- What the watches of the worker and of the sender count.
use linux_sensors.Base.{
  ℕ, ◌+◌, ◌%◌, ◌^◌, ◌≡◌, ap, ◌∙◌, List, [], ◌∷◌, ◌++◌, length, length-append, arith, All, All-split,
  ◌<◌, Bool-cases, inl, inr, append-nil,
}
use linux_sensors.Base.Int.{pos, to_int}
use linux_sensors.Trace.{SysParamsRecord}
use linux_sensors.Sensor.Aggregator.{DataAggregator, ready}
use linux_sensors.Sensor.Watch.{EventsWatch, add, stop}
use linux_sensors.Sensor.Reader.{Reader}
use linux_sensors.Sensor.System.{
  Pack, BulkMessage, System, start, Step, read_round, read_end, take_bulks, collect_one,
  pack_records, meet_end, flush, tell_workers, tell_sender, take_packs, dispatch_pack,
  dispatch_throws, finish, Reach, here, next, reader_round, reader_end, worker_collect, worker_pack,
  flushed, worker_flush, worker_tell_workers, worker_tell_sender, sender_dispatch, sender_finish,
}
use linux_sensors.Sensor.System.Invariant.{joined, joined-append}

-- A pack whose size an `int` holds.
abbrev pub IsSmall : Pack → Type 0
IsSmall pack = length pack < 2 ^ 31

-- The sender's watch counts the records that were dispatched, in a size_t, and the worker's watch
-- nothing.
record Counts (s : System) : Type 0 where
  sent :
      All IsSmall s.dispatched → s.sender_watch.total_events ≡ length (joined s.dispatched) % 2 ^ 64
  processed : s.worker_watch.total_events ≡ 0
  recent : s.worker_watch.events ≡ 0

worker_pack-Counts : (left : List BulkMessage) (s : System) → Counts s → Counts (worker_pack left s)
unfolding worker_pack
worker_pack-Counts left s k = elim (Bool-cases (ready s.aggregator)) [
  | inl e ↦
      rw (e, worker_pack) (record { sent = k.sent; processed = k.processed; recent = k.recent })
  | inr e ↦
      rw (e, worker_pack) (record { sent = k.sent; processed = k.processed; recent = k.recent })
]

flushed-Counts :
    (items : Pack) (agg : DataAggregator SysParamsRecord) (s : System)
    → Counts s
    → Counts (flushed items agg s)
unfolding flushed
flushed-Counts [] agg s k = record { sent = k.sent; processed = k.processed; recent = k.recent }
flushed-Counts (r ∷ rs) agg s k = record {
  sent = k.sent;
  processed = k.processed;
  recent = k.recent;
}

length-joined :
    (packs : List Pack) (pack : Pack)
    → length (joined (packs ++ pack ∷ [])) ≡ length (joined packs) + length pack
length-joined packs pack =
    ap length (joined-append packs (pack ∷ []))
    ∙ length-append (joined packs) (pack ++ [])
    ∙ ap (λ t. length (joined packs) + length t) (append-nil pack)

add_count :
    (n : ℕ) (w : EventsWatch)
    → n < 2 ^ 31
    → (add (to_int (pos n)) w).total_events ≡ (w.total_events + n) % 2 ^ 64
unfolding add
add_count n w h = ground arith

Step-Counts : {s t : System} → Step s t → Counts s → Counts t
unfolding reader_round reader_end worker_collect worker_flush worker_tell_workers worker_tell_sender
    sender_dispatch sender_finish stop
Step-Counts (read_round r e) k = record {
  sent = k.sent;
  processed = k.processed;
  recent = k.recent;
}
Step-Counts (read_end r e) k = record { sent = k.sent; processed = k.processed; recent = k.recent }
Step-Counts (take_bulks ms rest e got) k = record {
  sent = k.sent;
  processed = k.processed;
  recent = k.recent;
}
Step-Counts (collect_one bulk left records e done) k = record {
  sent = k.sent;
  processed = k.processed;
  recent = k.recent;
}
Step-Counts {s} (pack_records left e) k = worker_pack-Counts left s k
Step-Counts (meet_end left e) k = record {
  sent = k.sent;
  processed = k.processed;
  recent = k.recent;
}
Step-Counts {s} (flush e) k = flushed-Counts s.aggregator.items _ s k
Step-Counts (tell_workers e) k = record {
  sent = k.sent;
  processed = k.processed;
  recent = k.recent;
}
Step-Counts (tell_sender clock e) k = record {
  sent = k.sent;
  processed = k.processed;
  recent = k.recent;
}
Step-Counts (take_packs ms rest e got) k = record {
  sent = k.sent;
  processed = k.processed;
  recent = k.recent;
}
Step-Counts {s} (dispatch_pack pack left e) k = record {
  sent = λ small.
      let (before, (fits, _)) = All-split IsSmall s.dispatched (pack ∷ []) small in
      omega (
        arith,
        add_count (length pack) s.sender_watch fits,
        k.sent before,
        length-joined s.dispatched pack,
      );
  processed = k.processed;
  recent = k.recent;
}
Step-Counts (dispatch_throws pack left e) k = record {
  sent = k.sent;
  processed = k.processed;
  recent = k.recent;
}
Step-Counts (finish clock left e) k = record {
  sent = k.sent;
  processed = k.processed;
  recent = k.recent;
}

module _ (reader : Reader) (worker_watch sender_watch : EventsWatch) (pack_size : ℕ)
    (worker_zero : worker_watch.total_events ≡ 0) (recent_zero : worker_watch.events ≡ 0)
    (sender_zero : sender_watch.total_events ≡ 0) where
  Reach-Counts :
      {s : System} → Reach (start reader worker_watch sender_watch pack_size) s → Counts s
  unfolding start
  Reach-Counts here = record {
    sent = λ _. sender_zero;
    processed = worker_zero;
    recent = recent_zero;
  }
  Reach-Counts (next r st) = Step-Counts st (Reach-Counts r)

  -- If the watches start at 0, then in every state that the threads reach with dispatched packs of
  -- less than 2 ^ 31 records each, `total_events` of the sender's watch is the number of records that
  -- were dispatched, modulo 2 ^ 64, and both counters of the worker's watch are still 0.
  pub watches_count :
      {s : System}
      → Reach (start reader worker_watch sender_watch pack_size) s
      → All IsSmall s.dispatched
      → (s.sender_watch.total_events ≡ length (joined s.dispatched) % 2 ^ 64)
        × (s.worker_watch.total_events ≡ 0)
        × (s.worker_watch.events ≡ 0)
  watches_count r small = let k = Reach-Counts r in (k.sent small, k.processed, k.recent)
