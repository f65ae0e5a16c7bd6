-- ===== src/Sensor/Run/Whole/Returns.antt =====
-- When `run` can return: the throws decide, whose batch may have held the closing nullptr.
use linux_sensors.Base.{
  ℕ, ◌^◌, ◌<◌, ◌≡◌, ◌↔◌, refl, sym, ap, List, [], ◌∷◌, ◌++◌, Bool, true, false, Bytes, length, All,
}
use linux_sensors.Base.Int.{ℤ, pos}
use linux_sensors.Text.Completed.{newline, complete}
use linux_sensors.Trace.Whole.{IsReadable}
use linux_sensors.Os.{ran, task_command}
use linux_sensors.Socket.{LinuxServerSocket, ListenReplies, listen_server}
use linux_sensors.Sensor.Watch.{EventsWatch}
use linux_sensors.Sensor.Reader.Lines.{reader_on}
use linux_sensors.Sensor.Reader.Midway.{NoLoneByte}
use linux_sensors.Sensor.System.{read_done, work_done, send_done, System, start, Reach, here, next}
use linux_sensors.Sensor.System.Spares.{SparesEnd}
use linux_sensors.Sensor.System.Throw.{finished-SparesEnd, finished_over}
use linux_sensors.Sensor.System.Parsed.{text-Completes}
use linux_sensors.Sensor.Run.{
  MainPhase, listening, serving, reporting, testing, over, Event, listened, saw, sent, Main,
  main_step, run_opens,
}
use linux_sensors.Sensor.Run.Whole.{
  RunPhase, opening, joining_reader, joining_sender, joining_worker, looping, closing, returned,
  Whole, run_body, IsSeen, goes, opens, joins_reader, joins_sender, joins_worker, serves, leaves,
  closes, RunReach, stays, steps, begun, threads_of,
}
use linux_sensors.Sensor.Run.Whole.Flags.{returned-finished}

-- A `listen` that accepts a client.
abbrev accepts : ListenReplies
accepts = record { socket_reply = pos 0; bind_reply = pos 0; accept_reply = pos 0 }

module _ (logging : Bool) (pids : List ℤ) (socket : LinuxServerSocket) where
  join_runs :
      {u v w : Whole}
      → RunReach logging pids socket u v
      → RunReach logging pids socket v w
      → RunReach logging pids socket u w
  join_runs r stays = r
  join_runs r (steps q st) = steps (join_runs r q) st

  -- The threads run on beside the main thread.
  pub beside :
      (w : Whole) {t : System}
      → Reach w.threads t
      → RunReach logging pids socket w (record w { threads = t })
  beside w here = stays
  beside w (next r st) = steps (beside w r) (goes st)

  abbrev pub CanReturn : Whole → Type 0
  CanReturn w = (u : Whole) × RunReach logging pids socket w u × (u.phase ≡ returned)

  after_run : {v w : Whole} → RunReach logging pids socket v w → CanReturn w → CanReturn v
  after_run r (u, more, at) = (u, join_runs r more, at)

  from_closing : (w : Whole) → w.phase ≡ closing → CanReturn w
  from_closing w e = (_, steps stays (closes e), refl)

  from_worker : (w : Whole) → w.phase ≡ joining_worker → w.threads.worker ≡ work_done → CanReturn w
  from_worker w e d = after_run (steps stays (joins_worker e d)) (from_closing _ refl)

  from_sender :
      (w : Whole)
      → w.phase ≡ joining_sender
      → w.threads.sender ≡ send_done
      → w.threads.worker ≡ work_done
      → CanReturn w
  from_sender w e d d' = after_run (steps stays (joins_sender e d)) (from_worker _ refl d')

  from_reader :
      (w : Whole)
      → w.phase ≡ joining_reader
      → w.threads.reader ≡ read_done
      → w.threads.sender ≡ send_done
      → w.threads.worker ≡ work_done
      → CanReturn w
  from_reader w e d d' d'' = after_run (steps stays (joins_reader e d)) (from_sender _ refl d' d'')

  -- One event of the loops.
  serve_to :
      {w : Whole} {m : Main} (e : Event)
      → w.phase ≡ looping m
      → IsSeen w.threads.finished e
      → CanReturn (record w { phase = looping (main_step [] m m.phase e) })
      → CanReturn w
  serve_to {m = m} e at seen = after_run (steps stays (serves m [] e at seen))

  -- From the loops, with the flag up: a client is accepted if none is there, and a status sent if
  -- one is due.
  loops_over : (w : Whole) (m : Main) → m.phase ≡ over → w.phase ≡ looping m → CanReturn w
  loops_over w m e at = after_run (steps stays (leaves m at e)) (from_closing _ refl)

  loops_testing :
      (w : Whole) (m : Main)
      → w.threads.finished ≡ true
      → m.phase ≡ testing
      → w.phase ≡ looping m
      → CanReturn w
  unfolding main_step
  loops_testing w m up e at =
      serve_to (saw true) at (sym up)
        (loops_over _ _ (ap (λ p. (main_step [] m p (saw true)).phase) e) refl)

  loops_serving :
      (w : Whole) (m : Main)
      → w.threads.finished ≡ true
      → m.phase ≡ serving
      → w.phase ≡ looping m
      → CanReturn w
  unfolding main_step
  loops_serving w m up e at =
      serve_to (saw true) at (sym up)
        (loops_testing _ _ up (ap (λ p. (main_step [] m p (saw true)).phase) e) refl)

  loops_reporting :
      (w : Whole) (m : Main)
      → w.threads.finished ≡ true
      → m.phase ≡ reporting
      → w.phase ≡ looping m
      → CanReturn w
  unfolding main_step
  loops_reporting w m up e at =
      serve_to (sent [] [] (pos 0)) at tt
        (loops_serving _ _ up (ap (λ p. (main_step [] m p (sent [] [] (pos 0))).phase) e) refl)

  loops_listening :
      (w : Whole) (m : Main)
      → w.threads.finished ≡ true
      → m.phase ≡ listening
      → w.phase ≡ looping m
      → CanReturn w
  unfolding main_step listen_server
  loops_listening w m up e at =
      serve_to (listened accepts) at tt
        (loops_serving _ _ up (ap (λ p. (main_step [] m p (listened accepts)).phase) e) refl)

  from_looping :
      (w : Whole) (m : Main) (p : MainPhase)
      → w.threads.finished ≡ true
      → m.phase ≡ p
      → w.phase ≡ looping m
      → CanReturn w
  from_looping w m over up e at = loops_over w m e at
  from_looping w m testing up e at = loops_testing w m up e at
  from_looping w m serving up e at = loops_serving w m up e at
  from_looping w m reporting up e at = loops_reporting w m up e at
  from_looping w m listening up e at = loops_listening w m up e at

  -- From any phase, once the three threads have returned.
  from_phase :
      (w : Whole) (p : RunPhase)
      → w.phase ≡ p
      → w.threads.finished ≡ true
      → w.threads.reader ≡ read_done
      → w.threads.worker ≡ work_done
      → w.threads.sender ≡ send_done
      → CanReturn w
  unfolding run_body
  from_phase w joining_reader e up read worked sent' = from_reader w e read sent' worked
  from_phase w joining_sender e up read worked sent' = from_sender w e sent' worked
  from_phase w joining_worker e up read worked sent' = from_worker w e worked
  from_phase w (looping m) e up read worked sent' = from_looping w m m.phase up refl e
  from_phase w closing e up read worked sent' = from_closing w e
  from_phase w returned e up read worked sent' = (w, stays, e)
  from_phase w opening e up read worked sent' =
      after_run (steps stays (opens (pos 0) e)) (go logging refl)
    where
      go :
          (b : Bool)
          → logging ≡ b
          → CanReturn (record w {
            phase = run_body logging socket;
            effects = w.effects ++ ran (task_command (pos 0)) ∷ run_opens pids;
          })
      go true f = from_looping _ _ listening up refl (ap (λ b. run_body b socket) f)
      go false f = from_reader _ (ap (λ b. run_body b socket) f) read sent' worked

  module _ (text : Bytes) (watch worker_watch sender_watch : EventsWatch) (pack_size : ℕ)
      (lone : NoLoneByte text) (short : length text < 2 ^ 62)
      (readable : All IsReadable (complete [] (text ++ newline))) where
    -- For a text of less than 2 ^ 62 bytes that no read cuts one byte after a line end, and whose
    -- lines have a shape of the trace: from a state that `run` and the threads have reached, `run` can
    -- still return, with logging or without, exactly if no throw so far has dropped the closing
    -- nullptr with the packs of its batch.
    pub run-CanReturn :
        {w : Whole}
        (r : RunReach logging pids socket
          (begun (start (reader_on text watch) worker_watch sender_watch pack_size))
          w)
        → CanReturn w ↔ SparesEnd (threads_of r)
    unfolding begun
    run-CanReturn {w} r = (spared, returns)
      where
        spared : CanReturn w → SparesEnd (threads_of r)
        spared (u, more, at) =
            finished-SparesEnd (reader_on text watch) worker_watch sender_watch pack_size
              (threads_of r) (threads_of more)
              (returned-finished logging pids socket (reader_on text watch) worker_watch
                sender_watch pack_size (join_runs r more) at)

        returns : SparesEnd (threads_of r) → CanReturn w
        returns h =
            let (t, more, _, up) =
              (text-Completes text watch worker_watch sender_watch pack_size lone short readable
                  (threads_of r)).1
                h in
            let r' = join_runs r (beside w more) in
            let (read, worked, sent') =
              finished_over (reader_on text watch) worker_watch sender_watch pack_size
                (threads_of r') up in
            after_run (beside w more) (from_phase _ w.phase refl up read worked sent')
