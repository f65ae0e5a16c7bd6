-- ===== src/Sensor/Run/Whole/Ends.antt =====
-- Without logging `run` and the threads take finitely many steps.
use mathlib.Core.WellFounded.{Acc}
use linux_sensors.Base.{ℕ, zero, suc, ◌<◌, ◌≡◌, refl, sym, subst, List, true, false, arith}
use linux_sensors.Base.Int.{ℤ}
use linux_sensors.Socket.{Call, LinuxServerSocket}
use linux_sensors.Sensor.Watch.{EventsWatch}
use linux_sensors.Sensor.Reader.{Reader}
use linux_sensors.Sensor.System.{System, start, Step}
use linux_sensors.Sensor.System.Ends.{Stops, Reach-Stops}
use linux_sensors.Os.{Effect}
use linux_sensors.Sensor.Run.Whole.{
  RunPhase, opening, joining_reader, joining_sender, joining_worker, looping, closing, returned,
  Whole, run_body, RunStep, goes, opens, joins_reader, joins_sender, joins_worker, serves, leaves,
  closes, RunReach, stays, steps, begun, threads_of,
}

-- What the main thread has left; `join` has no loops.
abbrev main_left : RunPhase → ℕ
main_left opening = 5
main_left joining_reader = 4
main_left joining_sender = 3
main_left joining_worker = 2
main_left (looping m) = 6
main_left closing = 1
main_left returned = 0

module _ (pids : List ℤ) (socket : LinuxServerSocket) where
  abbrev pub RunStops : Whole → Type 0
  RunStops = Acc (λ w v. RunStep false pids socket v w)

  abbrev Ends : ℕ → Type 0
  Ends n =
      (s : System) (p : RunPhase) (calls : List Call) (effects : List Effect)
      → Stops s
      → main_left p < n
      → RunStops (record { threads = s; phase = p; calls = calls; effects = effects })

  -- A step of the main thread, which is not in the loops, leaves it less.
  main_falls :
      (n : ℕ) (v : Whole) (q : RunPhase)
      → Ends n
      → Stops v.threads
      → main_left v.phase < main_left q
      → main_left q < suc n
      → RunStops v
  main_falls n v q rest h less less' =
      rest v.threads v.phase v.calls v.effects h (omega (arith, less, less'))

  -- A step of a thread leaves the threads less.
  threads_Stops : (n : ℕ) → n < 6 → Ends n → Ends (suc n)
  unfolding run_body
  threads_Stops n small rest s p calls effects (Acc.intro _ h) less =
      Acc.intro _ (go (λ t st. threads_Stops n small rest t p calls effects (h t st) less))
    where
      falls :
          (v : Whole) (q : RunPhase)
          → v.threads ≡ s
          → p ≡ q
          → main_left v.phase < main_left q
          → RunStops v
      falls v q same at fewer =
          main_falls n v q rest (subst Stops (sym same) (Acc.intro _ h)) fewer
            (subst (λ p. main_left p < suc n) at less)

      go :
          ((t : System)
            → Step s t
            → RunStops (record { threads = t; phase = p; calls = calls; effects = effects }))
          → (v : Whole)
          → RunStep false pids socket
              (record { threads = s; phase = p; calls = calls; effects = effects })
              v
          → RunStops v
      go later v (goes {t} st) = later t st
      go later v (opens cur_pid e) = falls _ opening refl e (omega arith)
      go later v (joins_reader e d) = falls _ joining_reader refl e (omega arith)
      go later v (joins_sender e d) = falls _ joining_sender refl e (omega arith)
      go later v (joins_worker e d) = falls _ joining_worker refl e (omega arith)
      go later v (serves m summary ev e seen) =
          absurd (omega (arith, small, subst (λ p. main_left p < suc n) e less))
      go later v (leaves m e d) =
          absurd (omega (arith, small, subst (λ p. main_left p < suc n) e less))
      go later v (closes e) = falls _ closing refl e (omega arith)

  all_End : (n : ℕ) → n < 7 → Ends n
  all_End zero small = λ s p calls effects h less. absurd (omega (arith, less))
  all_End (suc n) small = threads_Stops n (omega (arith, small)) (all_End n (omega (arith, small)))

  module _ (reader : Reader) (worker_watch sender_watch : EventsWatch) (pack_size : ℕ) where
    unlooped :
        {w : Whole}
        → RunReach false pids socket (begun (start reader worker_watch sender_watch pack_size)) w
        → main_left w.phase < 6
    unfolding begun run_body
    unlooped stays = omega arith
    unlooped (steps r (goes st)) = unlooped r
    unlooped (steps r (opens cur_pid e)) = omega arith
    unlooped (steps r (joins_reader e d)) = omega arith
    unlooped (steps r (joins_sender e d)) = omega arith
    unlooped (steps r (joins_worker e d)) = omega arith
    unlooped (steps r (serves m summary ev e seen)) =
        absurd (omega (arith, subst (λ p. main_left p < 6) e (unlooped r)))
    unlooped (steps r (leaves m e d)) = omega arith
    unlooped (steps r (closes e)) = omega arith

    -- Without logging every execution of `run` and the three threads is finite, whatever the
    -- interleaving and whether a dispatch throws or not, if `trace_pipe` was opened and is not at its
    -- end before the first read, of a trace that is a finite text, whose reads never wait.
    pub run-RunStops :
        {w : Whole}
        → reader.pipe.opened ≡ true
        → reader.pipe.eof ≡ false
        → RunReach false pids socket (begun (start reader worker_watch sender_watch pack_size)) w
        → RunStops w
    unfolding begun
    run-RunStops {w} opened fresh r =
        all_End 6 (omega arith) w.threads w.phase w.calls w.effects
          (Reach-Stops reader worker_watch sender_watch pack_size opened fresh (threads_of r))
          (unlooped r)
