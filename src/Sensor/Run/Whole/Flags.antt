-- ===== src/Sensor/Run/Whole/Flags.antt =====
-- The main thread gets behind `join` and behind its loops only with the flag `finished` up.
use linux_sensors.Base.{
  ℕ, ◌≡◌, refl, sym, subst, ◌∙◌, List, [], ◌∷◌, Bool, true, false, Bytes, arith,
}
use linux_sensors.Base.Int.{ℤ}
use linux_sensors.Socket.{LinuxServerSocket, listen_server}
use linux_sensors.Trace.{SysParamsRecord}
use linux_sensors.Sensor.Aggregator.{DataAggregator}
use linux_sensors.Sensor.Watch.{EventsWatch}
use linux_sensors.Sensor.Reader.{Reader}
use linux_sensors.Sensor.System.{
  Pack, BulkMessage, send_done, System, Step, read_round, read_end, take_bulks, collect_one,
  pack_records, meet_end, flush, tell_workers, tell_sender, take_packs, dispatch_pack,
  dispatch_throws, finish, start, reader_round, reader_end, worker_collect, worker_pack, flushed,
  worker_flush, worker_tell_workers, worker_tell_sender, sender_dispatch, sender_finish,
}
use linux_sensors.Sensor.System.Progress.{Reach-IsProper}
use linux_sensors.Sensor.Run.{
  MainPhase, listening, serving, reporting, testing, over, Event, listened, saw, sent, caught, Main,
  after_listen, main_step,
}
use linux_sensors.Sensor.Run.Whole.{
  RunPhase, opening, joining_reader, joining_sender, joining_worker, looping, closing, returned,
  Whole, run_body, IsSeen, RunStep, goes, opens, joins_reader, joins_sender, joins_worker, serves,
  leaves, closes, RunReach, stays, steps, begun, threads_of,
}

worker_pack-finished :
    (left : List BulkMessage) (s : System) → (worker_pack left s).finished ≡ s.finished
unfolding worker_pack
worker_pack-finished left s = ground arith

flushed-finished :
    (items : Pack) (agg : DataAggregator SysParamsRecord) (s : System)
    → (flushed items agg s).finished ≡ s.finished
unfolding flushed
flushed-finished [] agg s = refl
flushed-finished (r ∷ rs) agg s = refl

-- The flag stays up.
Step-finished : {s t : System} → Step s t → s.finished ≡ true → t.finished ≡ true
unfolding reader_round reader_end worker_collect worker_flush worker_tell_workers worker_tell_sender
    sender_dispatch sender_finish
Step-finished (read_round r e) h = h
Step-finished (read_end r e) h = h
Step-finished (take_bulks ms rest e got) h = h
Step-finished (collect_one bulk left records e done) h = h
Step-finished {s} (pack_records left e) h = worker_pack-finished left s ∙ h
Step-finished (meet_end left e) h = h
Step-finished {s} (flush e) h = flushed-finished s.aggregator.items _ s ∙ h
Step-finished (tell_workers e) h = h
Step-finished (tell_sender clock e) h = h
Step-finished (take_packs ms rest e got) h = h
Step-finished (dispatch_pack pack left e) h = h
Step-finished (dispatch_throws pack left e) h = h
Step-finished (finish clock left e) h = refl

-- Where the flag must be up.
abbrev FlagIsUp : RunPhase → Bool → Type 0
FlagIsUp opening finished = Unit
FlagIsUp joining_reader finished = Unit
FlagIsUp joining_sender finished = Unit
FlagIsUp joining_worker finished = finished ≡ true
FlagIsUp (looping m) finished = m.phase ≡ over → finished ≡ true
FlagIsUp closing finished = finished ≡ true
FlagIsUp returned finished = finished ≡ true

FlagIsUp-goes :
    (p : RunPhase) (before after : Bool)
    → (before ≡ true → after ≡ true)
    → FlagIsUp p before
    → FlagIsUp p after
FlagIsUp-goes opening before after up h = tt
FlagIsUp-goes joining_reader before after up h = tt
FlagIsUp-goes joining_sender before after up h = tt
FlagIsUp-goes joining_worker before after up h = up h
FlagIsUp-goes (looping m) before after up h = λ e. up (h e)
FlagIsUp-goes closing before after up h = up h
FlagIsUp-goes returned before after up h = up h

-- The loops are left at a test that found the flag up.
main_step-over :
    (summary : Bytes) (m : Main) (p : MainPhase) (e : Event) (finished : Bool)
    → m.phase ≡ p
    → IsSeen finished e
    → (m.phase ≡ over → finished ≡ true)
    → (main_step summary m p e).phase ≡ over
    → finished ≡ true
unfolding main_step
main_step-over summary m listening (listened replies) finished at seen up left =
    go (listen_server replies m.socket).0 left
  where
    go : (b : Bool) → (after_listen b m.effects).0 ≡ over → finished ≡ true
    go true e = cc
    go false e = cc
main_step-over summary m serving (saw true) finished at seen up left = cc
main_step-over summary m serving (saw false) finished at seen up left = cc
main_step-over summary m reporting (sent status shown ret) finished at seen up left = ground arith
main_step-over summary m reporting caught finished at seen up left = cc
main_step-over summary m testing (saw true) finished at seen up left = sym seen
main_step-over summary m testing (saw false) finished at seen up left = cc
main_step-over summary m listening (saw b) finished at seen up left = up left
main_step-over summary m listening (sent status shown ret) finished at seen up left = up left
main_step-over summary m serving (listened replies) finished at seen up left = up left
main_step-over summary m serving (sent status shown ret) finished at seen up left = up left
main_step-over summary m reporting (listened replies) finished at seen up left = up left
main_step-over summary m reporting (saw b) finished at seen up left = up left
main_step-over summary m testing (listened replies) finished at seen up left = up left
main_step-over summary m testing (sent status shown ret) finished at seen up left = up left
main_step-over summary m listening caught finished at seen up left = up left
main_step-over summary m serving caught finished at seen up left = up left
main_step-over summary m testing caught finished at seen up left = up left
main_step-over summary m over e finished at seen up left = up at

run_body-FlagIsUp :
    (logging : Bool) (socket : LinuxServerSocket) (finished : Bool)
    → FlagIsUp (run_body logging socket) finished
unfolding run_body
run_body-FlagIsUp false socket finished = tt
run_body-FlagIsUp true socket finished = λ e. cc

module _ (logging : Bool) (pids : List ℤ) (socket : LinuxServerSocket) where
  RunStep-FlagIsUp :
      {v w : Whole}
      → (v.threads.sender ≡ send_done → v.threads.finished ≡ true)
      → RunStep logging pids socket v w
      → FlagIsUp v.phase v.threads.finished
      → FlagIsUp w.phase w.threads.finished
  RunStep-FlagIsUp {v} {w} flag (goes st) h = FlagIsUp-goes v.phase _ _ (Step-finished st) h
  RunStep-FlagIsUp {v} flag (opens cur_pid e) h =
      run_body-FlagIsUp logging socket v.threads.finished
  RunStep-FlagIsUp flag (joins_reader e d) h = tt
  RunStep-FlagIsUp flag (joins_sender e d) h = flag d
  RunStep-FlagIsUp {v} flag (joins_worker e d) h = subst (λ p. FlagIsUp p v.threads.finished) e h
  RunStep-FlagIsUp {v} flag (serves m summary ev e seen) h =
      main_step-over summary m m.phase ev v.threads.finished refl seen
        (subst (λ p. FlagIsUp p v.threads.finished) e h)
  RunStep-FlagIsUp {v} flag (leaves m e d) h = subst (λ p. FlagIsUp p v.threads.finished) e h d
  RunStep-FlagIsUp {v} flag (closes e) h = subst (λ p. FlagIsUp p v.threads.finished) e h

  module _ (reader : Reader) (worker_watch sender_watch : EventsWatch) (pack_size : ℕ) where
    RunReach-FlagIsUp :
        {w : Whole}
        → RunReach logging pids socket (begun (start reader worker_watch sender_watch pack_size)) w
        → FlagIsUp w.phase w.threads.finished
    unfolding begun
    RunReach-FlagIsUp stays = tt
    RunReach-FlagIsUp (steps r st) =
        RunStep-FlagIsUp
          (Reach-IsProper reader worker_watch sender_watch pack_size (threads_of r)).flag st
          (RunReach-FlagIsUp r)

    -- `run` has returned, so the flag is up.
    pub returned-finished :
        {w : Whole}
        → RunReach logging pids socket (begun (start reader worker_watch sender_watch pack_size)) w
        → w.phase ≡ returned
        → w.threads.finished ≡ true
    returned-finished {w} r e = subst (λ p. FlagIsUp p w.threads.finished) e (RunReach-FlagIsUp r)
