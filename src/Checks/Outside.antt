-- ===== src/Checks/Outside.antt =====
-- The streams, the pid file and the commands.
use linux_sensors.Base.{
  ℕ, ◌≡◌, List, [], ◌∷◌, ◌++◌, false, Bytes, codes, none, some, refl, inr, ok, arith,
}
use linux_sensors.Base.Int.{pos, negsuc}
use linux_sensors.Number.{to_string}
use linux_sensors.Os.{Files, file_at, printed, file_opened}
use linux_sensors.Trace.{SysParamsRecord}
use linux_sensors.Stream.Aggregate.{Traces, find, memory_dispatch, new_file_aggr, indexed_name}
use linux_sensors.Stream.Aggregate.ByProcess.{held, calls_of, memory_dispatch-calls_of}
use linux_sensors.Stream.Aggregate.Files.{dispatches, one_file}
use linux_sensors.Stream.Packet.{frame}
use linux_sensors.Stream.Packet.Frames.{read_frame, read_frame-frame}
use linux_sensors.Daemon.{get_sensor_pid, pid_path}
use linux_sensors.Daemon.PidFile.{pid_file_after, setup_daemon_stale}
use linux_sensors.Sensor.Status.{comma_number}
use linux_sensors.Sensor.Status.Grouping.{thousands, comma_number-thousands}
use linux_sensors.Socket.{LinuxServerSocket, ListenReplies, listen_loop}
use linux_sensors.Socket.Leaks.{opens, closes, listen_loop-IsTaken}
use linux_sensors.Program.{World, to_file, ends, main}
use linux_sensors.Program.Stale.{main-start_refused}

abbrev record_of_call : ℕ → ℕ → SysParamsRecord
record_of_call pid call = record {
  base = record { pid = pos pid; syscall = pos call };
  name = codes "sh";
  arg = [];
}

abbrev records : List SysParamsRecord
records = record_of_call 7 1 ∷ record_of_call 8 2 ∷ record_of_call 7 3 ∷ []

abbrev traces : Traces
traces = (pos 7, pos 9 ∷ []) ∷ []

memory_dispatch-calls_of_example :
    held (find (pos 7) (memory_dispatch records traces))
    ≡ held (find (pos 7) traces) ++ calls_of (pos 7) records
memory_dispatch-calls_of_example = memory_dispatch-calls_of (pos 7) records traces

calls_of_seven : calls_of (pos 7) records ≡ pos 1 ∷ pos 3 ∷ []
unfolding linux_sensors.Stream.Aggregate.int_eq
calls_of_seven = refl

one_file_example :
    ((dispatches
        (λ m. m)
        ((5, records) ∷ (6, records) ∷ [])
        (new_file_aggr (codes "f") 2)).open_name
      ≡ indexed_name (codes "f") 10)
    × ((dispatches (λ m. m) ((5, records) ∷ (6, records) ∷ []) (new_file_aggr (codes "f") 2)).closed
        ≡ [])
one_file_example = one_file (codes "f") 2 (λ m. m) ((5, records) ∷ (6, records) ∷ [])

read_frame-frame_example :
    read_frame (frame (codes "{}") ++ 0 ∷ 0 ∷ []) ≡ some (codes "{}", 0 ∷ 0 ∷ [])
read_frame-frame_example =
    read_frame-frame (codes "{}") (0 ∷ 0 ∷ []) (omega arith, (omega arith, tt)) (omega arith)

abbrev deamon_name : Bytes
deamon_name = codes "d"

abbrev run_path : Bytes
run_path = codes "/r"

abbrev stale_files : Files
stale_files = (codes "/r/d.pid", codes "99\n") ∷ []

setup_daemon_stale_example :
    get_sensor_pid (pid_file_after deamon_name run_path stale_files 4321 5 0) ≡ pos 99
unfolding file_at pid_path to_string
setup_daemon_stale_example =
    setup_daemon_stale deamon_name run_path stale_files 99 4321 5 0 (omega arith) refl

abbrev world : World
world = record {
  pid_file = some (codes "99\n");
  kill_reply = negsuc 0;
  own_pid = pos 1;
  task_output = none;
  fork_reply = pos 0;
  daemon_pid = pos 2;
  setsid_reply = pos 2;
  chdir_reply = pos 0;
}

main-start_refused_example :
    main world (codes "start" ∷ codes "-o" ∷ codes "out" ∷ [])
    ≡ ok (ends, file_opened (codes "out") ∷ printed (codes "The sensor is running.\n") ∷ [])
unfolding to_string linux_sensors.Program.behind linux_sensors.Program.value_of
    linux_sensors.Program.chosen_stream linux_sensors.Program.opening
main-start_refused_example =
    main-start_refused world (codes "start" ∷ codes "-o" ∷ codes "out" ∷ []) (to_file (codes "out"))
      99 [] (omega arith) refl (inr refl) refl refl refl refl

comma_number-thousands_example : comma_number 1234567 ≡ thousands 7 1234567
comma_number-thousands_example = comma_number-thousands 1234567 (omega arith)

comma_number_millions : comma_number 1234567 ≡ codes "1,234,567"
unfolding comma_number
comma_number_millions = refl

abbrev server : LinuxServerSocket
server = record { socket_id = pos 0; client_id = pos 0; address = codes "localhost"; port = 8787 }

abbrev taken : ListenReplies
taken = record { socket_reply = pos 3; bind_reply = negsuc 0; accept_reply = negsuc 0 }

listen_loop-IsTaken_example :
    ((listen_loop (taken ∷ taken ∷ []) server).0 ≡ false)
    × (opens (listen_loop (taken ∷ taken ∷ []) server).2 ≡ 2)
    × (closes (listen_loop (taken ∷ taken ∷ []) server).2 ≡ 0)
listen_loop-IsTaken_example =
    listen_loop-IsTaken (taken ∷ taken ∷ []) server ((refl, refl), ((refl, refl), tt))
