-- ===== src/Checks/Runs.antt =====
-- The main thread beside the three threads, on the text of Threads.
use linux_sensors.Base.{codes, ◌≡◌, ◌↔◌, [], ◌∷◌, ◌++◌, true, false, refl, arith, concat_map}
use linux_sensors.Base.Int.{pos}
use linux_sensors.Os.{ran, task_command}
use linux_sensors.Text.Completed.{newline, complete}
use linux_sensors.Trace.Whole.{parsed}
use linux_sensors.Socket.{LinuxServerSocket, ListenReplies}
use linux_sensors.Sensor.Watch.{new_watch}
use linux_sensors.Sensor.System.{
  read_done, work_done, send_done, start, reader_round, reader_end, worker_collect, worker_pack,
  worker_flush, worker_tell_workers, worker_tell_sender, sender_dispatch, sender_finish,
}
use linux_sensors.Sensor.System.Invariant.{joined}
use linux_sensors.Sensor.System.Spares.{SparesEnd}
use linux_sensors.Sensor.Run.{
  Main, listening, serving, testing, listened, saw, main_step, run_opens, run_closes,
}
use linux_sensors.Sensor.Run.Whole.{
  Whole, opening, returned, RunReach, steps, opens, joins_reader, joins_sender, joins_worker,
  closes, begun, threads_of, run_body,
}
use linux_sensors.Sensor.Run.Whole.Writes.{writes_of, starting, stopping}
use linux_sensors.Sensor.Run.Whole.Closing.{run-delivers}
use linux_sensors.Sensor.Run.Whole.Returns.{beside, CanReturn, run-CanReturn}
use linux_sensors.Sensor.Run.Whole.Ends.{RunStops, run-RunStops}
use linux_sensors.Checks.Ends.{lines-IsReadable}
use linux_sensors.Checks.Threads.{text, reader, begin, was_sent, run_ends, sent_sound, no_lone_byte}
use linux_sensors.Checks.Throws.{was_spared, run_spares}

abbrev server : LinuxServerSocket
server = record { socket_id = pos 0; client_id = pos 0; address = []; port = 8888 }

abbrev was_run : Whole
was_run = record {
  threads = was_sent;
  phase = returned;
  calls = [];
  effects = ([] ++ ran (task_command (pos 4)) ∷ run_opens (pos 5 ∷ [])) ++ run_closes;
}

run_returns : RunReach false (pos 5 ∷ []) server (begun begin) was_run
unfolding begun run_body start reader_round linux_sensors.Sensor.Reader.read_bulks
    linux_sensors.Sensor.Reader.read_bulk linux_sensors.Sensor.Reader.read_chunk reader_end
    worker_collect worker_pack worker_flush worker_tell_workers worker_tell_sender sender_dispatch
    sender_finish linux_sensors.Sensor.System.worker_next
run_returns =
    steps
      (steps
        (steps
          (steps
            (steps (beside false (pos 5 ∷ []) server (begun begin) run_ends) (opens (pos 4) refl))
            (joins_reader refl refl))
          (joins_sender refl refl))
        (joins_worker refl refl))
      (closes refl)

run-delivers_example :
    (joined was_sent.dispatched ≡ concat_map parsed (complete [] (text ++ newline)))
    × (writes_of was_run.effects ≡ starting (pos 5 ∷ []) ++ stopping)
run-delivers_example =
    run-delivers false (pos 5 ∷ []) server text new_watch new_watch new_watch 10 no_lone_byte
      (omega arith) lines-IsReadable run_returns refl sent_sound

spared_run :
    RunReach true
      (pos 5 ∷ [])
      server
      (begun begin)
      (record { threads = was_spared; phase = opening; calls = []; effects = [] })
unfolding begun
spared_run = beside true (pos 5 ∷ []) server (begun begin) run_spares

run-CanReturn_example :
    CanReturn true
      (pos 5 ∷ [])
      server
      (record { threads = was_spared; phase = opening; calls = []; effects = [] })
    ↔ SparesEnd (threads_of spared_run)
run-CanReturn_example =
    run-CanReturn true (pos 5 ∷ []) server text new_watch new_watch new_watch 10 no_lone_byte
      (omega arith) lines-IsReadable spared_run

run-RunStops_example : RunStops (pos 5 ∷ []) server was_run
run-RunStops_example =
    run-RunStops (pos 5 ∷ []) server reader new_watch new_watch 10 refl refl run_returns

abbrev taken : ListenReplies
taken = record { socket_reply = pos 3; bind_reply = pos 0; accept_reply = pos 4 }

-- The main thread with logging, beside threads that have ended: it accepts a client, and leaves.
abbrev accepting : Main
accepting = record { phase = listening; socket = server; calls = []; effects = [] }

abbrev serving_one : Main
serving_one = main_step (codes "all") accepting listening (listened taken)

abbrev ending_one : Main
ending_one = main_step (codes "all") serving_one serving (saw true)

abbrev done_one : Main
done_one = main_step (codes "all") ending_one testing (saw true)

abbrev was_logged : Whole
was_logged = record {
  threads = was_sent;
  phase = returned;
  calls = [] ++ done_one.calls;
  effects =
      (([] ++ ran (task_command (pos 4)) ∷ run_opens (pos 5 ∷ [])) ++ done_one.effects)
      ++ run_closes;
}
