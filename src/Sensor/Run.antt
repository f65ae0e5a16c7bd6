-- ===== src/Sensor/Run.antt =====
-- `run` of include/sensor/multithreaded_sensor.h: the main thread, beside the three of `start`.
pub mod Client
pub mod Whole
use linux_sensors.Base.{List, [], ◌∷◌, ◌++◌, Bool, true, false, Bytes}
use linux_sensors.Base.Int.{ℤ}
use linux_sensors.Os.{Effect, sleep_sec}
use linux_sensors.Socket.{
  Call, LinuxServerSocket, ListenReplies, listen_server, send_server, close_server, minus_one,
}
use linux_sensors.Sensor.Status.{status_shown}
use linux_sensors.Sensor.Control.{add_filter, set_trace, clear_filters}

-- Where the main thread stands: at `_socket.listen()`; at the test of the inner loop; about to send
-- a status; at the test of the outer loop; behind the loops.
pub data MainPhase : Type 0 where
  listening : MainPhase
  serving : MainPhase
  reporting : MainPhase
  testing : MainPhase
  over : MainPhase

-- What the main thread sees next: what the calls of `listen` return, the flag `finished`, the status
-- with what the conversion of its stream printed and what `send` returns, or an exception that
-- `get_status` throws before it prints. The calls of `listen`, `send` and `close` throw none.
pub data Event : Type 0 where
  listened : ListenReplies → Event
  saw : (finished : Bool) → Event
  sent : (status shown : Bytes) → (ret : ℤ) → Event
  caught : Event

pub record Main : Type 0 where
  pub phase : MainPhase
  pub socket : LinuxServerSocket
  pub calls : List Call
  pub effects : List Effect

abbrev pub after_listen : Bool → List Effect → MainPhase × List Effect
after_listen true effects = (serving, effects)
after_listen false effects = (listening, effects ++ sleep_sec 1 ∷ [])

-- One event of the loops with `logging`. An event that does not belong to the phase changes nothing.
unfoldable pub main_step : Bytes → Main → MainPhase → Event → Main
unfolding listen_server send_server close_server
main_step summary m listening (listened replies) =
    let (done, socket, calls) = listen_server replies m.socket in
    let (phase, effects) = after_listen done m.effects in
    record { phase = phase; socket = socket; calls = m.calls ++ calls; effects = effects }
main_step summary m serving (saw true) = record m { phase = testing }
main_step summary m serving (saw false) = record m {
  phase = reporting;
  effects = m.effects ++ sleep_sec 1 ∷ [];
}
main_step summary m reporting (sent status shown ret) =
    let calls = m.calls ++ send_server status m.socket in
    let effects = m.effects ++ status_shown shown ∷ [] in
    elim (minus_one ret) [
      | true ↦ record m {
        phase = testing;
        calls = calls ++ close_server m.socket;
        effects = effects;
      }
      | false ↦ record m { phase = serving; calls = calls; effects = effects }
    ]
main_step summary m reporting caught = record m { phase = testing }
main_step summary m testing (saw true) = record m {
  phase = over;
  calls = (m.calls ++ send_server summary m.socket) ++ close_server m.socket;
}
main_step summary m testing (saw false) = record m { phase = listening }
main_step summary m phase event = m

unfoldable pub main_loop : Bytes → List Event → Main → Main
unfolding main_step
main_loop summary [] m = m
main_loop summary (e ∷ events) m = main_loop summary events (main_step summary m m.phase e)

-- What `run` writes before its loops or `join`, and behind them.
unfoldable pub run_opens : List ℤ → List Effect
unfolding add_filter set_trace
run_opens pids = add_filter pids ++ set_trace true

unfoldable pub run_closes : List Effect
unfolding set_trace clear_filters
run_closes = set_trace false ++ clear_filters
