-- ===== src/Checks/Threads.antt =====
-- A run of the three threads and the reader on a text of one line.
use linux_sensors.Base.{
  suc, All, ◌≡◌, List, [], ◌∷◌, ◌++◌, true, false, none, some, refl, arith, Bytes, codes, ok,
  replicate, take, drop, zero,
}
use linux_sensors.Base.Int.{pos}
use linux_sensors.Text.Completed.{newline, complete, remainder}
use linux_sensors.Trace.{SysParamsRecord}
use linux_sensors.Sensor.Watch.{new_watch}
use linux_sensors.Sensor.Reader.{EventsBulk, Reader, read_all, read_bulk, read_buffer_size}
use linux_sensors.Sensor.Reader.Lines.{reader_on, read_all-lines, lone_byte_lost}
use linux_sensors.Sensor.Reader.Midway.{bulk_lines, lines_of, NoLoneByte}
use linux_sensors.Sensor.Reader.Rounds.{read_all_ends, read_all_stuck}
use linux_sensors.Sensor.System.{
  System, Pack, Reach, here, next, start, read_round, read_end, take_bulks, collect_one,
  pack_records, meet_end, flush, tell_workers, tell_sender, take_packs, dispatch_pack, finish,
  sending, read_done, work_done, collect_bulk, reader_round, reader_end, worker_collect,
  worker_pack, worker_flush, worker_tell_workers, worker_tell_sender, sender_dispatch,
  sender_finish, worker_next, sender_next, working, flushing,
}
use linux_sensors.Queue.{MessageQueue}
use linux_sensors.Sensor.System.Counts.{IsSmall}
use linux_sensors.Sensor.System.Invariant.{records_of, joined}
use linux_sensors.Sensor.System.Delivery.{finished-delivers, dispatched_prefix}
use linux_sensors.Sensor.System.Reading.{bulks_read}

abbrev pub text : Bytes
text = codes "            bash-123   [000] ....   100.123456: sys_enter: NR 59  (1,"

abbrev pub reader : Reader
reader = reader_on text new_watch

abbrev pub bulk : EventsBulk
bulk = (read_bulk read_buffer_size reader).0

abbrev pub after : Reader
after = (read_bulk read_buffer_size reader).1

pub read_text : read_all 1 reader ≡ some (bulk ∷ [], after)
unfolding read_all linux_sensors.Sensor.Reader.read_bulks read_bulk
    linux_sensors.Sensor.Reader.read_chunk
read_text = refl

abbrev pub bash : SysParamsRecord
bash = record { base = record { pid = pos 123; syscall = pos 59 }; name = codes "bash"; arg = [] }

pub collect_text : collect_bulk bulk ≡ ok (bash ∷ [])
unfolding collect_bulk linux_sensors.Trace.collect read_bulk linux_sensors.Text.split_string
    linux_sensors.Sensor.Reader.round_text linux_sensors.Sensor.Reader.read_chunk
    linux_sensors.Text.string_ref linux_sensors.Trace.sys_params_record
    linux_sensors.Trace.sys_record linux_sensors.Trace.set_name linux_sensors.Trace.skip_while
    linux_sensors.Trace.back_while linux_sensors.Trace.between
collect_text = refl

abbrev pub drained : {A : Type 0} → MessageQueue A
drained = record { queue = record { items = [] } }

abbrev pub begin : System
begin = start reader new_watch new_watch 10

abbrev was_read : System
was_read = reader_end (reader_round reader begin)

abbrev pub was_taken : System
was_taken = record was_read { worker = working (some bulk ∷ none ∷ []); stream_queue = drained }

abbrev was_packed : System
was_packed = worker_pack (none ∷ []) (worker_collect (bash ∷ []) (none ∷ []) was_taken)

abbrev pub was_flushed : System
was_flushed = worker_flush (record was_packed { worker = flushing })

abbrev was_worked : System
was_worked = worker_tell_sender 5 (worker_tell_workers was_flushed)

abbrev pub to_dispatch : System
to_dispatch = record was_worked {
  sender = sending (some (bash ∷ []) ∷ none ∷ []);
  result_queue = drained;
}

abbrev pub was_sent : System
was_sent = sender_finish 9 (sender_dispatch (bash ∷ []) (none ∷ []) to_dispatch)

pub run_reads : Reach begin was_taken
unfolding start reader_round linux_sensors.Sensor.Reader.read_bulks read_bulk
    linux_sensors.Sensor.Reader.read_chunk reader_end linux_sensors.Queue.receive_bulk worker_next
    worker_collect worker_pack worker_flush worker_tell_workers worker_tell_sender sender_dispatch
    sender_finish sender_next
run_reads =
    next (next (next here (read_round reader refl)) (read_end after refl))
      (take_bulks (some bulk ∷ none ∷ []) drained refl refl)

pub run_flushes : Reach begin was_flushed
unfolding start reader_round linux_sensors.Sensor.Reader.read_bulks read_bulk
    linux_sensors.Sensor.Reader.read_chunk reader_end linux_sensors.Queue.receive_bulk worker_next
    worker_collect worker_pack worker_flush worker_tell_workers worker_tell_sender sender_dispatch
    sender_finish sender_next
run_flushes =
    next
      (next
        (next (next run_reads (collect_one bulk (none ∷ []) (bash ∷ []) refl collect_text))
          (pack_records (none ∷ []) refl))
        (meet_end [] refl))
      (flush refl)

run_works : Reach begin was_worked
unfolding start reader_round linux_sensors.Sensor.Reader.read_bulks read_bulk
    linux_sensors.Sensor.Reader.read_chunk reader_end linux_sensors.Queue.receive_bulk worker_next
    worker_collect worker_pack worker_flush worker_tell_workers worker_tell_sender sender_dispatch
    sender_finish sender_next
run_works = next (next run_flushes (tell_workers refl)) (tell_sender 5 refl)

pub run_dispatches : Reach begin to_dispatch
unfolding start reader_round linux_sensors.Sensor.Reader.read_bulks read_bulk
    linux_sensors.Sensor.Reader.read_chunk reader_end linux_sensors.Queue.receive_bulk worker_next
    worker_collect worker_pack worker_flush worker_tell_workers worker_tell_sender sender_dispatch
    sender_finish sender_next
run_dispatches = next run_works (take_packs (some (bash ∷ []) ∷ none ∷ []) drained refl refl)

pub run_ends : Reach begin was_sent
unfolding start reader_round linux_sensors.Sensor.Reader.read_bulks read_bulk
    linux_sensors.Sensor.Reader.read_chunk reader_end linux_sensors.Queue.receive_bulk worker_next
    worker_collect worker_pack worker_flush worker_tell_workers worker_tell_sender sender_dispatch
    sender_finish sender_next
run_ends =
    next (next run_dispatches (dispatch_pack (bash ∷ []) (none ∷ []) refl)) (finish 9 [] refl)

pub sent_over : was_sent.finished ≡ true
unfolding start reader_round linux_sensors.Sensor.Reader.read_bulks read_bulk
    linux_sensors.Sensor.Reader.read_chunk reader_end linux_sensors.Queue.receive_bulk worker_next
    worker_collect worker_pack worker_flush worker_tell_workers worker_tell_sender sender_dispatch
    sender_finish sender_next
sent_over = refl

pub sent_sound : was_sent.failed ≡ false
unfolding start reader_round linux_sensors.Sensor.Reader.read_bulks read_bulk
    linux_sensors.Sensor.Reader.read_chunk reader_end linux_sensors.Queue.receive_bulk worker_next
    worker_collect worker_pack worker_flush worker_tell_workers worker_tell_sender sender_dispatch
    sender_finish sender_next
sent_sound = refl

pub sent-IsSmall : All IsSmall was_sent.dispatched
unfolding start reader_round linux_sensors.Sensor.Reader.read_bulks read_bulk
    linux_sensors.Sensor.Reader.read_chunk reader_end linux_sensors.Queue.receive_bulk worker_next
    worker_collect worker_pack worker_flush worker_tell_workers worker_tell_sender sender_dispatch
    sender_finish sender_next
sent-IsSmall = (omega arith, tt)

pub taken_sound : was_taken.failed ≡ false
unfolding reader_end reader_round start
taken_sound = refl

finished-delivers_example :
    (was_sent.reader ≡ read_done)
    × (was_sent.worker ≡ work_done)
    × (joined was_sent.dispatched ≡ records_of (bulk ∷ []))
finished-delivers_example =
    finished-delivers reader new_watch new_watch 10 run_ends sent_over sent_sound 1 (bulk ∷ [])
      after read_text

dispatched_prefix_example :
    (rest : Pack) × (joined to_dispatch.dispatched ++ rest ≡ records_of (bulks_read run_dispatches))
unfolding start reader_round linux_sensors.Sensor.Reader.read_bulks read_bulk
    linux_sensors.Sensor.Reader.read_chunk reader_end linux_sensors.Queue.receive_bulk worker_next
    worker_collect worker_pack worker_flush worker_tell_workers worker_tell_sender sender_dispatch
    sender_finish sender_next
dispatched_prefix_example = dispatched_prefix reader new_watch new_watch 10 run_dispatches refl

pub no_lone_byte : NoLoneByte text
unfolding remainder
no_lone_byte zero h = λ e. omega (arith, e)
no_lone_byte (suc k) h = absurd (omega (arith, h))

read_all-lines_example :
    (result : List EventsBulk × Reader) × ((read_all 1 reader ≡ some result)
      × (lines_of result.0 ≡ complete [] (text ++ newline)))
read_all-lines_example = read_all-lines text new_watch 1 no_lone_byte (omega arith) (omega arith)

read_all_ends_example :
    (result : List EventsBulk × Reader) × ((read_all 1 reader ≡ some result)
      × (result.1.pipe.eof ≡ true))
read_all_ends_example = read_all_ends 1 reader refl refl (omega arith)

abbrev closed_reader : Reader
closed_reader = record reader { pipe = record { opened = false; rest = []; eof = false } }

read_all_stuck_example : read_all 7 closed_reader ≡ none
read_all_stuck_example = read_all_stuck 7 closed_reader refl refl

-- 1023 line ends and one more byte.
abbrev lone_text : Bytes
lone_text = replicate 1023 10 ++ b'b' ∷ []

abbrev lone_reader : Reader
lone_reader = reader_on lone_text new_watch

lone_byte_lost_example :
    ((read_bulk read_buffer_size lone_reader).1.last_line ≡ [])
    × ((read_bulk read_buffer_size lone_reader).1.pipe.rest ≡ drop read_buffer_size lone_text)
    × (bulk_lines (read_bulk read_buffer_size lone_reader).0
        ≡ complete [] (take read_buffer_size lone_text))
unfolding remainder
lone_byte_lost_example = lone_byte_lost lone_reader b'b' refl refl (omega arith) (omega arith) refl
