-- ===== src/Sensor/Run/Whole.antt =====
-- `run` and `join` of include/sensor/multithreaded_sensor.h as a fourth thread beside those that
-- `start` has started: a step is one of theirs, or one of the main thread.
pub mod Flags
pub mod Writes
pub mod Closing
pub mod Calls
pub mod Returns
pub mod Ends
use linux_sensors.Base.{◌≡◌, List, [], ◌∷◌, ◌++◌, Bool, true, false, Bytes}
use linux_sensors.Base.Int.{ℤ}
use linux_sensors.Os.{Effect, ran, task_command}
use linux_sensors.Socket.{Call, LinuxServerSocket}
use linux_sensors.Sensor.System.{
  ReaderPhase, read_done, WorkerPhase, work_done, SenderPhase, send_done, System, Step, Reach, here,
  next,
}
use linux_sensors.Sensor.Run.{
  MainPhase, listening, over, Event, listened, saw, sent, caught, Main, main_step, run_opens,
  run_closes,
}

-- Where the main thread stands: behind `start()`; at one of the three calls of `join`; in the loops
-- with logging; behind these; returned.
pub data RunPhase : Type 0 where
  opening : RunPhase
  joining_reader : RunPhase
  joining_sender : RunPhase
  joining_worker : RunPhase
  looping : Main → RunPhase
  closing : RunPhase
  returned : RunPhase

-- `effects` and `calls` are what `run` has done outside, the calls of its socket apart.
pub record Whole : Type 0 where
  pub threads : System
  pub phase : RunPhase
  pub calls : List Call
  pub effects : List Effect

-- `if (!logging) join(); else do { … }`
unfoldable pub run_body : Bool → LinuxServerSocket → RunPhase
run_body false socket = joining_reader
run_body true socket =
    looping (record { phase = listening; socket = socket; calls = []; effects = [] })

-- `is_finished()` returns the flag as the threads have it.
abbrev pub IsSeen : Bool → Event → Type 0
IsSeen finished (saw b) = b ≡ finished
IsSeen finished (listened replies) = Unit
IsSeen finished (sent status shown ret) = Unit
IsSeen finished caught = Unit

-- What `get_pid` returned is `cur_pid`, and what `get_pids`, which runs its command, `pids`. A `join`
-- returns once its thread has. In the loops `summary` is what `get_summary` returns at that moment. The
-- resets of the watches by `get_status` are in Sensor/Status; no step depends on a watch.
pub data RunStep (logging : Bool) (pids : List ℤ) (socket : LinuxServerSocket) (w : Whole)
    : Whole → Type 0 where
  goes : {t : System} → Step w.threads t → RunStep logging pids socket w (record w { threads = t })
  opens :
      (cur_pid : ℤ)
      → w.phase ≡ opening
      → RunStep logging pids socket w (record w {
        phase = run_body logging socket;
        effects = w.effects ++ ran (task_command cur_pid) ∷ run_opens pids;
      })
  joins_reader :
      w.phase ≡ joining_reader
      → w.threads.reader ≡ read_done
      → RunStep logging pids socket w (record w { phase = joining_sender })
  joins_sender :
      w.phase ≡ joining_sender
      → w.threads.sender ≡ send_done
      → RunStep logging pids socket w (record w { phase = joining_worker })
  joins_worker :
      w.phase ≡ joining_worker
      → w.threads.worker ≡ work_done
      → RunStep logging pids socket w (record w { phase = closing })
  serves :
      (m : Main) (summary : Bytes) (e : Event)
      → w.phase ≡ looping m
      → IsSeen w.threads.finished e
      → RunStep logging pids socket w (record w { phase = looping (main_step summary m m.phase e) })
  leaves :
      (m : Main)
      → w.phase ≡ looping m
      → m.phase ≡ over
      → RunStep logging pids socket w (record w {
        phase = closing;
        effects = w.effects ++ m.effects;
        calls = w.calls ++ m.calls;
      })
  closes :
      w.phase ≡ closing
      → RunStep logging pids socket w
          (record w { phase = returned; effects = w.effects ++ run_closes })

pub data RunReach (logging : Bool) (pids : List ℤ) (socket : LinuxServerSocket) (w : Whole)
    : Whole → Type 0 where
  stays : RunReach logging pids socket w w
  steps :
      {v u : Whole}
      → RunReach logging pids socket w v
      → RunStep logging pids socket v u
      → RunReach logging pids socket w u

-- `run` behind its call of `start()`.
unfoldable pub begun : System → Whole
begun threads = record { threads = threads; phase = opening; calls = []; effects = [] }

-- The steps of the three threads among those of the whole.
unfoldable pub threads_of :
    {logging : Bool} {pids : List ℤ} {socket : LinuxServerSocket} {v w : Whole}
    → RunReach logging pids socket v w
    → Reach v.threads w.threads
threads_of stays = here
threads_of (steps r (goes st)) = next (threads_of r) st
threads_of (steps r (opens cur_pid e)) = threads_of r
threads_of (steps r (joins_reader e d)) = threads_of r
threads_of (steps r (joins_sender e d)) = threads_of r
threads_of (steps r (joins_worker e d)) = threads_of r
threads_of (steps r (serves m summary e p q)) = threads_of r
threads_of (steps r (leaves m e p)) = threads_of r
threads_of (steps r (closes e)) = threads_of r
