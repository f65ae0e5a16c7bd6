-- ===== src/Checks/Throws.antt =====
-- Runs of the threads in which a dispatch throws.
use mathlib.Core.List.{Perm, Sublist}
use linux_sensors.Base.{◌≡◌, ◌++◌, arith, concat_map, [], ◌∷◌, true, false, none, some, refl}
use linux_sensors.Sensor.Watch.{new_watch}
use linux_sensors.Sensor.Reader.{EventsBulk, Reader, read_all, read_bulk, read_buffer_size}
use linux_sensors.Sensor.System.{
  System, Reach, here, next, start, take_packs, tell_workers, tell_sender, finish, dispatch_throws,
  sending, sender_waiting, reader_round, reader_end, worker_collect, worker_pack, worker_flush,
  worker_tell_workers, worker_tell_sender, sender_dispatch, sender_finish, worker_next, sender_next,
}
use linux_sensors.Queue.{MessageQueue}
use linux_sensors.Sensor.System.Invariant.{records_of, joined}
use linux_sensors.Sensor.System.Reading.{bulks_read}
use linux_sensors.Sensor.System.Throw.{throw_hangs}
use linux_sensors.Sensor.System.Losses.{dispatched_sublist}
use linux_sensors.Sensor.System.Spares.{lost_in, SparesEnd, sound-SparesEnd}
use linux_sensors.Text.Completed.{newline, complete}
use linux_sensors.Trace.Whole.{parsed}
use linux_sensors.Sensor.System.Lost.{finished-loses}
use linux_sensors.Checks.Ends.{lines-IsReadable}
use linux_sensors.Checks.Threads.{
  text, no_lone_byte, reader, begin, bash, drained, was_flushed, run_flushes, to_dispatch,
  run_dispatches,
}

-- The dispatch throws.
abbrev was_thrown : System
was_thrown = record to_dispatch { sender = sender_waiting; failed = true }

run_throws : Reach begin was_thrown
run_throws = next run_dispatches (dispatch_throws (bash ∷ []) (none ∷ []) refl)

dispatched_sublist_example :
    Sublist (joined was_thrown.dispatched) (records_of (bulks_read run_throws))
dispatched_sublist_example = dispatched_sublist reader new_watch new_watch 10 run_throws

run_dispatches-SparesEnd : SparesEnd run_dispatches
unfolding start reader_round linux_sensors.Sensor.Reader.read_bulks read_bulk
    linux_sensors.Sensor.Reader.read_chunk reader_end linux_sensors.Queue.receive_bulk worker_next
    worker_collect worker_pack worker_flush worker_tell_workers worker_tell_sender sender_dispatch
    sender_finish sender_next
run_dispatches-SparesEnd = sound-SparesEnd run_dispatches refl

throw_hangs_example :
    (record to_dispatch { sender = sender_waiting; failed = true }).finished ≡ false
unfolding start reader_round linux_sensors.Sensor.Reader.read_bulks read_bulk
    linux_sensors.Sensor.Reader.read_chunk reader_end linux_sensors.Queue.receive_bulk worker_next
    worker_collect worker_pack worker_flush worker_tell_workers worker_tell_sender sender_dispatch
    sender_finish sender_next
throw_hangs_example =
    throw_hangs reader new_watch new_watch 10 run_dispatches run_dispatches-SparesEnd (bash ∷ []) []
      [] refl here

-- The sender took the pack before the nullptr was there, and the dispatch throws.
abbrev was_taken : System
was_taken = record was_flushed { sender = sending (some (bash ∷ []) ∷ []); result_queue = drained }

abbrev pub was_spared : System
was_spared = record was_taken { sender = sender_waiting; failed = true }

pub run_spares : Reach begin was_spared
unfolding start reader_round linux_sensors.Sensor.Reader.read_bulks read_bulk
    linux_sensors.Sensor.Reader.read_chunk reader_end linux_sensors.Queue.receive_bulk worker_next
    worker_collect worker_pack worker_flush worker_tell_workers worker_tell_sender sender_dispatch
    sender_finish sender_next
run_spares =
    next (next run_flushes (take_packs (some (bash ∷ []) ∷ []) drained refl refl))
      (dispatch_throws (bash ∷ []) [] refl)

flushed_sound : was_flushed.failed ≡ false
unfolding start reader_round linux_sensors.Sensor.Reader.read_bulks read_bulk
    linux_sensors.Sensor.Reader.read_chunk reader_end linux_sensors.Queue.receive_bulk worker_next
    worker_collect worker_pack worker_flush worker_tell_workers worker_tell_sender sender_dispatch
    sender_finish sender_next
flushed_sound = refl

run_spares-SparesEnd : SparesEnd run_spares
unfolding run_spares
run_spares-SparesEnd = ((sound-SparesEnd run_flushes flushed_sound, tt), tt)

-- The threads go on to their end.
abbrev was_lost : System
was_lost = sender_finish 9 (record (worker_tell_sender 5 (worker_tell_workers was_spared)) {
  sender = sending (none ∷ []);
  result_queue = drained;
})

run_loses : Reach begin was_lost
unfolding start reader_round linux_sensors.Sensor.Reader.read_bulks read_bulk
    linux_sensors.Sensor.Reader.read_chunk reader_end linux_sensors.Queue.receive_bulk worker_next
    worker_collect worker_pack worker_flush worker_tell_workers worker_tell_sender sender_dispatch
    sender_finish sender_next
run_loses =
    next
      (next (next (next run_spares (tell_workers refl)) (tell_sender 5 refl))
        (take_packs (none ∷ []) drained refl refl))
      (finish 9 [] refl)

lost_over : was_lost.finished ≡ true
unfolding start reader_round linux_sensors.Sensor.Reader.read_bulks read_bulk
    linux_sensors.Sensor.Reader.read_chunk reader_end linux_sensors.Queue.receive_bulk worker_next
    worker_collect worker_pack worker_flush worker_tell_workers worker_tell_sender sender_dispatch
    sender_finish sender_next
lost_over = refl

finished-loses_example :
    Sublist (joined was_lost.dispatched) (concat_map parsed (complete [] (text ++ newline)))
    × Perm
        (joined was_lost.dispatched ++ lost_in run_loses)
        (concat_map parsed (complete [] (text ++ newline)))
finished-loses_example =
    finished-loses text new_watch new_watch new_watch 10 no_lone_byte (omega arith) lines-IsReadable
      run_loses lost_over
