-- ===== src/Sensor/System/Proper.antt =====
-- What holds of the phases in every state: a thread in a `for` loop has a message left.
use linux_sensors.Base.{◌≡◌, ◌≢◌, List, [], ◌∷◌, true, refl, arith}
use linux_sensors.Trace.{SysParamsRecord}
use linux_sensors.Sensor.Aggregator.{DataAggregator}
use linux_sensors.Sensor.System.{
  Pack, BulkMessage, PackMessage, working, sending, send_done, System, Step, read_round, read_end,
  take_bulks, collect_one, pack_records, meet_end, flush, tell_workers, tell_sender, take_packs,
  dispatch_pack, dispatch_throws, finish, reader_round, reader_end, worker_collect, worker_next,
  worker_pack, flushed, worker_flush, worker_tell_workers, worker_tell_sender, sender_next,
  sender_dispatch, sender_finish,
}

-- A thread in a `for` loop has a message left, and the sender returns with the flag up.
pub record IsProper (s : System) : Type 0 where
  pub has_bulk : s.worker ≢ working []
  pub has_pack : s.sender ≢ sending []
  pub flag : s.sender ≡ send_done → s.finished ≡ true

worker_next_proper : (ms : List BulkMessage) → worker_next ms ≢ working []
unfolding worker_next
worker_next_proper [] = λ e. cc
worker_next_proper (m ∷ ms) = λ e. cc

sender_next_proper : (ms : List PackMessage) → sender_next ms ≢ sending []
unfolding sender_next
sender_next_proper [] = λ e. cc
sender_next_proper (m ∷ ms) = λ e. cc

sender_next_open : (ms : List PackMessage) → sender_next ms ≢ send_done
unfolding sender_next
sender_next_open [] = λ e. cc
sender_next_open (m ∷ ms) = λ e. cc

worker_pack-IsProper :
    (left : List BulkMessage) (s : System) → IsProper s → IsProper (worker_pack left s)
unfolding worker_pack
worker_pack-IsProper left s k = record {
  has_bulk = λ e. worker_next_proper left (ground (arith, e));
  has_pack = λ e. k.has_pack (ground (arith, e));
  flag = λ e. ground (arith, e, k.flag);
}

flushed-IsProper :
    (items : Pack) (agg : DataAggregator SysParamsRecord) (s : System)
    → IsProper s
    → IsProper (flushed items agg s)
unfolding flushed
flushed-IsProper [] agg s k = record { has_bulk = λ e. cc; has_pack = k.has_pack; flag = k.flag }
flushed-IsProper (r ∷ rs) agg s k = record {
  has_bulk = λ e. cc;
  has_pack = k.has_pack;
  flag = k.flag;
}

pub Step-IsProper : {s t : System} → Step s t → IsProper s → IsProper t
unfolding reader_round reader_end worker_collect worker_flush worker_tell_workers worker_tell_sender
    sender_dispatch sender_finish
Step-IsProper (read_round r e) k = record {
  has_bulk = k.has_bulk;
  has_pack = k.has_pack;
  flag = k.flag;
}
Step-IsProper (read_end r e) k = record {
  has_bulk = k.has_bulk;
  has_pack = k.has_pack;
  flag = k.flag;
}
Step-IsProper (take_bulks ms rest e got) k = record {
  has_bulk = worker_next_proper ms;
  has_pack = k.has_pack;
  flag = k.flag;
}
Step-IsProper (collect_one bulk left records e done) k = record {
  has_bulk = λ w. cc;
  has_pack = k.has_pack;
  flag = k.flag;
}
Step-IsProper {s} (pack_records left e) k = worker_pack-IsProper left s k
Step-IsProper (meet_end left e) k = record {
  has_bulk = λ w. cc;
  has_pack = k.has_pack;
  flag = k.flag;
}
Step-IsProper {s} (flush e) k = flushed-IsProper s.aggregator.items _ s k
Step-IsProper (tell_workers e) k = record {
  has_bulk = λ w. cc;
  has_pack = k.has_pack;
  flag = k.flag;
}
Step-IsProper (tell_sender clock e) k = record {
  has_bulk = λ w. cc;
  has_pack = k.has_pack;
  flag = k.flag;
}
Step-IsProper (take_packs ms rest e got) k = record {
  has_bulk = k.has_bulk;
  has_pack = sender_next_proper ms;
  flag = λ w. absurd (sender_next_open ms w);
}
Step-IsProper (dispatch_pack pack left e) k = record {
  has_bulk = k.has_bulk;
  has_pack = sender_next_proper left;
  flag = λ w. absurd (sender_next_open left w);
}
Step-IsProper (dispatch_throws pack left e) k = record {
  has_bulk = k.has_bulk;
  has_pack = λ w. cc;
  flag = λ w. cc;
}
Step-IsProper (finish clock left e) k = record {
  has_bulk = k.has_bulk;
  has_pack = λ w. cc;
  flag = λ w. refl;
}
