-- ===== src/Program.antt =====
-- main.cpp: the arguments, and what each command does. What `kill` and the calls of the daemon
-- return is an argument. A stream that is made opens its file or connects its socket, which are effects.
pub mod Stale
use linux_sensors.Base.{
  ◌+◌, List, [], ◌∷◌, ◌++◌, Bool, true, false, Option, none, some, Bytes, codes, ◌==◌,
  if◌then◌else◌, bytes_eq, Outcome, ok, undefined, ◌>>=◌, take, drop,
}
use linux_sensors.Base.Int.{ℤ, pos, negsuc}
use linux_sensors.Daemon.{
  Setup, parent_exits, fails, daemon, setup_daemon, get_sensor_pid, remove_sensor_pid, kill_sensor,
  signed_value, skip_space,
}
use linux_sensors.Number.{to_string}
use linux_sensors.Os.{Effect, printed, file_opened, connected}
use linux_sensors.Sensor.Control.{config_events}
use linux_sensors.Socket.{minus_one}
use linux_sensors.Stream.Aggregate.{indexed_name}
use linux_sensors.Text.{find}

-- The stream that `setup_stream` makes.
pub data StreamChoice : Type 0 where
  to_socket : (host : Bytes) → (port : ℤ) → StreamChoice
  to_file : (path : Bytes) → StreamChoice
  to_aggregate : (path : Bytes) → StreamChoice
  to_nothing : StreamChoice

-- `std::find(args.begin(), args.end(), option)`: whether it is there, and the arguments behind it.
unfoldable pub behind : Bytes → List Bytes → Option (List Bytes)
unfolding bytes_eq
behind option [] = none
behind option (a ∷ args) = if bytes_eq a option then some args else behind option args

-- `*(iter + 1)`, which reads past the end where the option is the last argument.
unfoldable pub value_of : List Bytes → Outcome Bytes
value_of [] = undefined
value_of (a ∷ args) = ok a

-- `std::atoi`, for a value in the range of `int`.
unfoldable pub atoi : Bytes → ℤ
unfolding signed_value skip_space
atoi text = signed_value (skip_space text)

-- `value.substr(0, split)` and the port behind `split + 1`; without a colon both are all of it.
unfoldable pub host_port : Bytes → Bytes × ℤ
unfolding atoi
host_port value = elim (find value (codes ":") 0) [
  | none ↦ (value, atoi value)
  | some split ↦ (take split value, atoi (drop (split + 1) value))
]

-- The tests of `setup_stream`.
unfoldable pub chosen_stream : List Bytes → Outcome StreamChoice
unfolding behind value_of host_port
chosen_stream args = elim (behind (codes "-h") args) [
  | some rest ↦ do value ← value_of rest; ok (to_socket (host_port value).0 (host_port value).1)
  | none ↦ elim (behind (codes "-o") args) [
    | some rest ↦ do path ← value_of rest; ok (to_file path)
    | none ↦ elim (behind (codes "-a") args) [
      | some rest ↦ do path ← value_of rest; ok (to_aggregate path)
      | none ↦ ok to_nothing
    ]
  ]
]

-- What the constructor of each stream does: `socket_stream` connects, `file_stream` opens the path and
-- `file_aggr_stream` the path with its first index.
unfoldable pub opening : StreamChoice → List Effect
unfolding indexed_name
opening (to_socket host port) = connected host port ∷ []
opening (to_file path) = file_opened path ∷ []
opening (to_aggregate path) = file_opened (indexed_name path 10) ∷ []
opening to_nothing = []

unfoldable pub setup_stream : List Bytes → Outcome (StreamChoice × List Effect)
unfolding chosen_stream opening
setup_stream args = do stream ← chosen_stream args; ok (stream, opening stream)

-- What `main` goes on to: nothing; the loop that prints what the sensor at an address sends; or a
-- sensor, with or without logging.
pub data Then : Type 0 where
  ends : Then
  queries : (host : Bytes) → (port : ℤ) → Then
  senses : (stream : StreamChoice) → (logging : Bool) → Then

-- What the calls of `main` return, and the content of the pid file.
pub record World : Type 0 where
  pub pid_file : Option Bytes
  pub kill_reply : ℤ
  pub own_pid : ℤ
  pub task_output : Option Bytes
  pub fork_reply : ℤ
  pub daemon_pid : ℤ
  pub setsid_reply : ℤ
  pub chdir_reply : ℤ

abbrev pub sensor_name : Bytes
sensor_name = codes "syscall_sensor"

abbrev pub run_path : Bytes
run_path = codes "/var/run"

-- `kill(pid, 0) == ESRCH`; ESRCH is 3.
abbrev pub is_esrch : ℤ → Bool
is_esrch (pos n) = n == 3
is_esrch (negsuc n) = false

abbrev pub has : Bytes → List Bytes → Bool
has option args = elim (behind option args) [ none ↦ false | some rest ↦ true ]

unfoldable pub stop : World → ℤ → Outcome (Then × List Effect)
unfolding remove_sensor_pid kill_sensor
stop w pid = elim (minus_one pid) [
  | true ↦ ok (ends, printed (codes "The sensor is NOT running.\n") ∷ [])
  | false ↦ do
    effects ← kill_sensor w.own_pid pid w.task_output
    ok (
      ends,
      printed (codes "Stopping the daemon process pid= " ++ to_string pid ++ codes "\n")
            ∷ remove_sensor_pid sensor_name run_path
          ++ effects,
    )
]

unfoldable pub status : List Bytes → ℤ → Outcome (Then × List Effect)
unfolding behind value_of host_port
status args pid =
    let gathering =
      printed (codes "Gathering info about the sensor pid= " ++ to_string pid ++ codes "\n") in
    elim (minus_one pid) [
      | true ↦ ok (ends, printed (codes "The sensor is NOT running.\n") ∷ [])
      | false ↦ elim (behind (codes "-h") args) [
        | none ↦ ok (
          ends,
          gathering
              ∷ printed (codes "You must specify the address and port to connect to the sensor\n")
              ∷ [],
        )
        | some rest ↦ do
          value ← value_of rest
          ok (queries (host_port value).0 (host_port value).1, gathering ∷ [])
      ]
    ]

-- The daemon of `start`: nothing with "-r", a sensor without.
unfoldable pub sense : List Bytes → StreamChoice → Setup × List Effect → Then × List Effect
unfolding config_events
sense args stream (daemon, effects) =
    if has (codes "-r") args
    then (ends, effects)
    else (senses stream (has (codes "-l") args), effects ++ config_events true false)
sense args stream (parent_exits, effects) = (ends, effects)
sense args stream (fails, effects) = (ends, effects)

-- What follows the stream in the branch of "start".
unfoldable pub started : World → List Bytes → ℤ → StreamChoice → Then × List Effect
unfolding setup_daemon sense
started w args pid stream = elim (minus_one pid) [
  | true ↦
      sense args stream
        (setup_daemon sensor_name run_path w.fork_reply w.daemon_pid w.setsid_reply w.chdir_reply)
  | false ↦ (ends, printed (codes "The sensor is running.\n") ∷ [])
]

unfoldable pub start : World → List Bytes → ℤ → Outcome (Then × List Effect)
unfolding setup_stream started
start w args pid = do
  made ← setup_stream args
  ok ((started w args pid made.0).0, made.1 ++ (started w args pid made.0).1)

-- The command of `main`: the first of stop, status and start that is an argument.
unfoldable pub command : World → List Bytes → ℤ → Outcome (Then × List Effect)
unfolding stop status start
command w args pid =
    if has (codes "stop") args
    then stop w pid
    else if has (codes "status") args
    then status args pid
    else if has (codes "start") args
    then start w args pid
    else ok (ends, [])

unfoldable pub main : World → List Bytes → Outcome (Then × List Effect)
unfolding get_sensor_pid remove_sensor_pid command
main w args =
    let pid = get_sensor_pid w.pid_file in
    let first = if is_esrch w.kill_reply then remove_sensor_pid sensor_name run_path else [] in
    do after ← command w args pid; ok (after.0, first ++ after.1)
