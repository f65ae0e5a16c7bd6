-- ===== src/Sensor/Control.antt =====
-- include/sensor/base_sensor.h: the control files of the kernel's tracer.
use linux_sensors.Base.{List, [], ◌∷◌, ◌++◌, Bool, true, Bytes, codes, if◌then◌else◌}
use linux_sensors.Base.Int.{ℤ}
use linux_sensors.Number.{to_string}
use linux_sensors.Os.{Effect, write_to}

abbrev pub ftrace_path : Bytes
ftrace_path = codes "/sys/kernel/debug/tracing"

abbrev pub syscalls_path : Bytes
syscalls_path = codes "/sys/kernel/debug/tracing/events/raw_syscalls"

abbrev pub sys_entry : Bytes
sys_entry = codes "sys_enter"

abbrev pub sys_exit : Bytes
sys_exit = codes "sys_exit"

-- SYSCALLS_PATH + "/" + event + "/" + file
abbrev pub event_file : Bytes → Bytes → Bytes
event_file event file = syscalls_path ++ codes "/" ++ event ++ codes "/" ++ file

unfoldable pub config_events : Bool → Bool → List Effect
unfolding write_to
config_events entry exit =
    write_to (event_file sys_entry (codes "enable")) (if entry then codes "1" else codes "0") true
    ∷ write_to (event_file sys_exit (codes "enable")) (if exit then codes "1" else codes "0") true
    ∷ []

-- The loop of `add_filter`, over the pids that are left.
unfoldable pub filter_text : List ℤ → Bytes → Bytes
filter_text [] filter = filter
filter_text (p ∷ []) filter = filter ++ (codes "common_pid != " ++ to_string p)
filter_text (p ∷ q ∷ pids) filter =
    filter_text (q ∷ pids) ((filter ++ (codes "common_pid != " ++ to_string p)) ++ codes " && ")

unfoldable pub add_filter : List ℤ → List Effect
unfolding filter_text write_to
add_filter pids = write_to (event_file sys_entry (codes "filter")) (filter_text pids []) true ∷ []

unfoldable pub set_trace : Bool → List Effect
unfolding write_to
set_trace trace =
    write_to (ftrace_path ++ codes "/tracing_on") (if trace then codes "1" else codes "0") true ∷ []

unfoldable pub clear_filters : List Effect
unfolding write_to
clear_filters =
    write_to (syscalls_path ++ codes "/filter") (codes "0") true
    ∷ write_to (event_file sys_entry (codes "filter")) (codes "0") true
    ∷ write_to (event_file sys_exit (codes "filter")) (codes "0") true
    ∷ []

-- `delete _stream` of the destructor is the stream's own; the flag is read as it is.
unfoldable pub is_finished : Bool → Bool
is_finished finished = finished
