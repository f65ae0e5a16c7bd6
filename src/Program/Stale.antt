-- ===== src/Program/Stale.antt =====
-- What main.cpp does where the pid file of a sensor is left.
use linux_sensors.Base.{
  ℕ, ◌≡◌, ◌<◌, ◌^◌, List, [], ◌∷◌, ◌++◌, Bytes, codes, true, false, some, refl, ◌∙◌, ap, ok, ◌⊎◌,
  inl, inr,
}
use linux_sensors.Base.Int.{ℤ, pos, negsuc}
use linux_sensors.Number.{to_string}
use linux_sensors.Os.{printed}
use linux_sensors.Daemon.{get_sensor_pid}
use linux_sensors.Daemon.PidFile.{get_sensor_pid-to_string}
use linux_sensors.Program.{
  StreamChoice, World, ends, has, is_esrch, chosen_stream, opening, setup_stream, started, start,
  command, main,
}

is_esrch_never : (reply : ℤ) → (reply ≡ pos 0) ⊎ (reply ≡ negsuc 0) → is_esrch reply ≡ false
is_esrch_never reply (inl e) = rw e refl
is_esrch_never reply (inr e) = rw e refl

-- While the pid file starts with a process id, `start` without `stop` and `status`, with a stream
-- that can be set up, opens or connects that stream, as for a sensor that starts, and then says that
-- the sensor is running, and does nothing else, whether `kill(pid, 0)` succeeds (0) or finds no such
-- process (-1).
pub main-start_refused :
    (w : World) (args : List Bytes) (stream : StreamChoice) (n : ℕ) (rest : Bytes)
    → n < 2 ^ 31
    → w.pid_file ≡ some (to_string (pos n) ++ b'\n' ∷ rest)
    → (w.kill_reply ≡ pos 0) ⊎ (w.kill_reply ≡ negsuc 0)
    → has (codes "stop") args ≡ false
    → has (codes "status") args ≡ false
    → has (codes "start") args ≡ true
    → chosen_stream args ≡ ok stream
    → main w args ≡ ok (ends, opening stream ++ printed (codes "The sensor is running.\n") ∷ [])
unfolding main command start setup_stream started
main-start_refused w args stream n rest lt file reply stop status go set =
    let pid = ap get_sensor_pid file ∙ get_sensor_pid-to_string n rest lt in
    rw (pid, is_esrch_never w.kill_reply reply, stop, status, go, set) refl
