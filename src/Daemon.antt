-- ===== src/Daemon.antt =====
-- include/utils/linux_daemon.h: the daemon, its pid file, and the end of a sensor. What fork,
-- getpid, setsid, chdir and `ls` give is an argument.
pub mod PidFile
use linux_sensors.Base.{
  ℕ, ◌+◌, ◌-◌, ◌*◌, List, [], ◌∷◌, ◌++◌, Bool, true, Option, none, some, Bytes, codes, ltb, leb,
  ◌==◌, ◌&&◌, if◌then◌else◌, Outcome, ok, ◌>>=◌,
}
use linux_sensors.Base.Int.{ℤ, pos, negsuc}
use linux_sensors.Number.{to_string, is_digit}
use linux_sensors.Os.{Effect, removed, printed, killed, write_to, sleep_sec, get_pids}
use linux_sensors.Socket.{is_negative, is_zero}
use linux_sensors.Stream.Aggregate.{int_eq}
use linux_sensors.Sensor.Control.{ftrace_path, clear_filters}

-- How `setup_daemon` ends: the parent's exit, an exit with a failure, or as the daemon.
pub data Setup : Type 0 where
  parent_exits : Setup
  fails : Setup
  daemon : Setup

-- run_path + "/" + deamon_name + ".pid"
unfoldable pub pid_path : Bytes → Bytes → Bytes
pid_path deamon_name run_path = ((run_path ++ codes "/") ++ deamon_name) ++ codes ".pid"

-- What the parent prints.
unfoldable pub parent_text : Bytes → ℤ → Bytes
parent_text deamon_name pid =
    (codes "Creating a daemon process pid= " ++ to_string pid ++ codes "\n")
    ++ codes "You can stop the process by the following command '"
    ++ deamon_name
    ++ codes " stop\n"

-- `setup_daemon`; `write_to` appends to a pid file that is there.
unfoldable pub setup_daemon : Bytes → Bytes → (pid getpid sid chdir : ℤ) → Setup × List Effect
unfolding parent_text pid_path write_to
setup_daemon deamon_name run_path pid getpid sid chdir =
    let file = write_to (pid_path deamon_name run_path) (to_string getpid) true ∷ [] in
    if is_negative pid
    then (fails, [])
    else if is_zero pid
    then (if is_negative sid
        then (fails, file)
        else if is_negative chdir
        then (fails, file)
        else (daemon, file))
    else (parent_exits, printed (parent_text deamon_name pid) ∷ [])

-- `isspace` of the C locale.
abbrev pub is_space : ℕ → Bool
is_space c = if c == b' ' then true else leb 9 c && leb c 13

unfoldable pub skip_space : Bytes → Bytes
skip_space [] = []
skip_space (c ∷ cs) = if is_space c then skip_space cs else c ∷ cs

-- The value of the digits that a text starts with.
unfoldable pub leading_value : ℕ → Bytes → ℕ
leading_value v [] = v
leading_value v (c ∷ cs) = if is_digit c then leading_value (v * 10 + (c - 48)) cs else v

-- `stream >> pid` with an `int`, which stops at the bounds of the type.
unfoldable pub signed_value : Bytes → ℤ
unfolding leading_value
signed_value [] = pos 0
signed_value (c ∷ cs) =
    let minus = leading_value 0 cs in
    let plain = leading_value 0 (if c == b'+' then cs else c ∷ cs) in
    if c == b'-'
    then (if minus == 0
        then pos 0
        else if leb minus 2147483648
        then negsuc (minus - 1)
        else negsuc 2147483647)
    else if ltb plain 2147483648
    then pos plain
    else pos 2147483647

-- `pid_file >> pid`: `pid` keeps its value where nothing but space is left.
unfoldable pub extract_int : ℤ → Bytes → ℤ
unfolding skip_space signed_value
extract_int old text = elim (skip_space text) [ [] ↦ old | c ∷ cs ↦ signed_value (c ∷ cs) ]

-- `get_sensor_pid`, with the content of the file if it opens.
unfoldable pub get_sensor_pid : Option Bytes → ℤ
unfolding extract_int
get_sensor_pid none = negsuc 0
get_sensor_pid (some content) = extract_int (negsuc 0) content

-- `remove_sensor_pid`, up to the `return` that it lacks.
unfoldable pub remove_sensor_pid : Bytes → Bytes → List Effect
unfolding pid_path
remove_sensor_pid deamon_name run_path = removed (pid_path deamon_name run_path) ∷ []

-- The loop of `kill_sensor` over the pids; SIGKILL is 9.
unfoldable pub kill_others : ℤ → List ℤ → List Effect
unfolding int_eq
kill_others curr_pid [] = []
kill_others curr_pid (p ∷ pids) =
    let others = kill_others curr_pid pids in
    if int_eq curr_pid p then others else killed p 9 ∷ others

-- `kill_sensor`, up to the `return` that it lacks. Its first three lines are those of
-- `clear_filters`.
unfoldable pub kill_sensor : ℤ → ℤ → Option Bytes → Outcome (List Effect)
unfolding kill_others get_pids clear_filters write_to sleep_sec
kill_sensor curr_pid pid output = do
  pids ← get_pids output
  ok (
      clear_filters
      ++ sleep_sec 5 ∷ kill_others curr_pid pids
      ++ write_to (ftrace_path ++ codes "/tracing_on") (codes "0") true ∷ killed pid 9 ∷ [])
