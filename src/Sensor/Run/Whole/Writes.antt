-- ===== src/Sensor/Run/Whole/Writes.antt =====
-- What `run` writes to the control files of the tracer on the way to each of its phases.
use linux_sensors.Base.{
  ◌≡◌, refl, sym, subst, ap, ◌∙◌, List, [], ◌∷◌, ◌++◌, map, append_assoc, append-nil, Bool, true,
  false, Bytes, codes, arith,
}
use linux_sensors.Base.Int.{ℤ}
use linux_sensors.Number.{to_string}
use linux_sensors.Os.{
  Effect, wrote, removed, printed, slept, killed, file_opened, connected, ran, write_to, sleep_sec,
}
use linux_sensors.Socket.{LinuxServerSocket, listen_server}
use linux_sensors.Sensor.Control.{filter_text, add_filter, set_trace, clear_filters}
use linux_sensors.Sensor.Status.{status_shown}
use linux_sensors.Sensor.Run.{
  MainPhase, listening, serving, reporting, testing, over, Event, listened, saw, sent, caught, Main,
  after_listen, main_step, run_opens, run_closes,
}
use linux_sensors.Sensor.Run.Whole.{
  RunPhase, opening, joining_reader, joining_sender, joining_worker, looping, closing, returned,
  Whole, run_body, RunStep, goes, opens, joins_reader, joins_sender, joins_worker, serves, leaves,
  closes, RunReach, stays, steps,
}

-- The files that are written to, and what is written, in order.
unfoldable pub writes_of : List Effect → List (Bytes × Bytes)
writes_of [] = []
writes_of (wrote path content append ∷ es) = (path, content) ∷ writes_of es
writes_of (removed path ∷ es) = writes_of es
writes_of (printed text ∷ es) = writes_of es
writes_of (slept seconds ∷ es) = writes_of es
writes_of (killed pid signal ∷ es) = writes_of es
writes_of (file_opened path ∷ es) = writes_of es
writes_of (connected host port ∷ es) = writes_of es
writes_of (ran command ∷ es) = writes_of es

writes_of-append : (a b : List Effect) → writes_of (a ++ b) ≡ writes_of a ++ writes_of b
unfolding writes_of
writes_of-append [] b = refl
writes_of-append (wrote path content append ∷ es) b =
    ap (λ t. (path, content) ∷ t) (writes_of-append es b)
writes_of-append (removed path ∷ es) b = writes_of-append es b
writes_of-append (printed text ∷ es) b = writes_of-append es b
writes_of-append (slept seconds ∷ es) b = writes_of-append es b
writes_of-append (killed pid signal ∷ es) b = writes_of-append es b
writes_of-append (file_opened path ∷ es) b = writes_of-append es b
writes_of-append (connected host port ∷ es) b = writes_of-append es b
writes_of-append (ran command ∷ es) b = writes_of-append es b

-- The condition of the kernel's filter that leaves out a process.
abbrev pub condition : ℤ → Bytes
condition p = codes "common_pid != " ++ to_string p

-- Words with a separator between two.
unfoldable pub separated : Bytes → List Bytes → Bytes
separated separator [] = []
separated separator (word ∷ []) = word
separated separator (word ∷ other ∷ words) =
    word ++ (separator ++ separated separator (other ∷ words))

filter_text-separated :
    (pids : List ℤ) (filter : Bytes)
    → filter_text pids filter ≡ filter ++ separated (codes " && ") (map condition pids)
unfolding filter_text separated
filter_text-separated [] filter = sym (append-nil filter)
filter_text-separated (p ∷ []) filter = refl
filter_text-separated (p ∷ q ∷ pids) filter =
    let rest = separated (codes " && ") (map condition (q ∷ pids)) in
    filter_text-separated (q ∷ pids) _
    ∙ append_assoc (filter ++ condition p) (codes " && ") rest
    ∙ append_assoc filter (condition p) (codes " && " ++ rest)

-- The tracer is told the processes to leave out, and to start.
abbrev pub starting : List ℤ → List (Bytes × Bytes)
starting pids =
    (
      codes "/sys/kernel/debug/tracing/events/raw_syscalls/sys_enter/filter",
      separated (codes " && ") (map condition pids) ++ codes "\n",
    )
    ∷ (codes "/sys/kernel/debug/tracing/tracing_on", codes "1\n")
    ∷ []

-- The tracer is told to stop, and to drop its filters.
abbrev pub stopping : List (Bytes × Bytes)
stopping =
    (codes "/sys/kernel/debug/tracing/tracing_on", codes "0\n")
    ∷ (codes "/sys/kernel/debug/tracing/events/raw_syscalls/filter", codes "0\n")
    ∷ (codes "/sys/kernel/debug/tracing/events/raw_syscalls/sys_enter/filter", codes "0\n")
    ∷ (codes "/sys/kernel/debug/tracing/events/raw_syscalls/sys_exit/filter", codes "0\n")
    ∷ []

writes_of-run_opens : (pids : List ℤ) → writes_of (run_opens pids) ≡ starting pids
unfolding writes_of run_opens add_filter set_trace write_to
writes_of-run_opens pids =
    ap
      (λ t.
        (codes "/sys/kernel/debug/tracing/events/raw_syscalls/sys_enter/filter", t ++ codes "\n")
        ∷ (codes "/sys/kernel/debug/tracing/tracing_on", codes "1\n")
        ∷ [])
      (filter_text-separated pids [])

writes_of-run_closes : writes_of run_closes ≡ stopping
unfolding writes_of run_closes set_trace clear_filters write_to
writes_of-run_closes = refl

-- More effects that write to no file.
silent_more :
    (effects more : List Effect)
    → writes_of more ≡ []
    → writes_of effects ≡ []
    → writes_of (effects ++ more) ≡ []
silent_more effects more h g = writes_of-append effects more ∙ ap (λ t. t ++ writes_of more) g ∙ h

silent_sleep :
    (effects : List Effect) → writes_of effects ≡ [] → writes_of (effects ++ sleep_sec 1 ∷ []) ≡ []
unfolding writes_of sleep_sec
silent_sleep effects = silent_more effects (sleep_sec 1 ∷ []) refl

silent_status :
    (effects : List Effect) (shown : Bytes)
    → writes_of effects ≡ []
    → writes_of (effects ++ status_shown shown ∷ []) ≡ []
unfolding writes_of status_shown
silent_status effects shown = silent_more effects (status_shown shown ∷ []) refl

-- In its loops the main thread writes to no file.
main_step-silent :
    (summary : Bytes) (m : Main) (p : MainPhase) (e : Event)
    → writes_of m.effects ≡ []
    → writes_of (main_step summary m p e).effects ≡ []
unfolding main_step
main_step-silent summary m listening (listened replies) h = go (listen_server replies m.socket).0
  where
    go : (b : Bool) → writes_of (after_listen b m.effects).1 ≡ []
    go true = h
    go false = silent_sleep m.effects h
main_step-silent summary m serving (saw true) h = h
main_step-silent summary m serving (saw false) h = silent_sleep m.effects h
main_step-silent summary m reporting (sent status shown ret) h =
    let same : writes_of (m.effects ++ status_shown shown ∷ []) ≡ [] =
      silent_status m.effects shown h in
    ground (arith, same)
main_step-silent summary m reporting caught h = h
main_step-silent summary m testing (saw true) h = h
main_step-silent summary m testing (saw false) h = h
main_step-silent summary m listening (saw b) h = h
main_step-silent summary m listening (sent status shown ret) h = h
main_step-silent summary m listening caught h = h
main_step-silent summary m serving (listened replies) h = h
main_step-silent summary m serving (sent status shown ret) h = h
main_step-silent summary m serving caught h = h
main_step-silent summary m reporting (listened replies) h = h
main_step-silent summary m reporting (saw b) h = h
main_step-silent summary m testing (listened replies) h = h
main_step-silent summary m testing (sent status shown ret) h = h
main_step-silent summary m testing caught h = h
main_step-silent summary m over e h = h

module _ (logging : Bool) (pids : List ℤ) (socket : LinuxServerSocket) where
  -- What was written on the way to a phase.
  abbrev pub Written : RunPhase → List Effect → Type 0
  Written opening effects = writes_of effects ≡ []
  Written joining_reader effects = writes_of effects ≡ starting pids
  Written joining_sender effects = writes_of effects ≡ starting pids
  Written joining_worker effects = writes_of effects ≡ starting pids
  Written (looping m) effects = (writes_of effects ≡ starting pids) × (writes_of m.effects ≡ [])
  Written closing effects = writes_of effects ≡ starting pids
  Written returned effects = writes_of effects ≡ starting pids ++ stopping

  run_body-Written :
      (b : Bool) (effects : List Effect)
      → writes_of effects ≡ starting pids
      → Written (run_body b socket) effects
  unfolding run_body writes_of
  run_body-Written false effects h = h
  run_body-Written true effects h = (h, refl)

  opens-Written :
      (command : Bytes) (effects : List Effect)
      → writes_of effects ≡ []
      → writes_of (effects ++ ran command ∷ run_opens pids) ≡ starting pids
  unfolding writes_of
  opens-Written command effects h =
      writes_of-append effects (ran command ∷ run_opens pids)
      ∙ ap (λ t. t ++ writes_of (run_opens pids)) h
      ∙ writes_of-run_opens pids

  RunStep-Written :
      {v w : Whole}
      → RunStep logging pids socket v w
      → Written v.phase v.effects
      → Written w.phase w.effects
  RunStep-Written (goes st) h = h
  RunStep-Written {v} (opens cur_pid e) h =
      run_body-Written logging _ (opens-Written _ v.effects (subst (λ p. Written p v.effects) e h))
  RunStep-Written {v} (joins_reader e d) h = subst (λ p. Written p v.effects) e h
  RunStep-Written {v} (joins_sender e d) h = subst (λ p. Written p v.effects) e h
  RunStep-Written {v} (joins_worker e d) h = subst (λ p. Written p v.effects) e h
  RunStep-Written {v} (serves m summary ev e seen) h =
      let (same, silent) = subst (λ p. Written p v.effects) e h in
      (same, main_step-silent summary m m.phase ev silent)
  RunStep-Written {v} (leaves m e d) h =
      let (same, silent) = subst (λ p. Written p v.effects) e h in
      writes_of-append v.effects m.effects
      ∙ ap (λ t. writes_of v.effects ++ t) silent
      ∙ append-nil (writes_of v.effects)
      ∙ same
  RunStep-Written {v} (closes e) h =
      let same = subst (λ p. Written p v.effects) e h in
      writes_of-append v.effects run_closes
      ∙ ap (λ t. t ++ writes_of run_closes) same
      ∙ ap (λ t. starting pids ++ t) writes_of-run_closes

  pub RunReach-Written :
      {v w : Whole}
      → RunReach logging pids socket v w
      → Written v.phase v.effects
      → Written w.phase w.effects
  RunReach-Written stays h = h
  RunReach-Written (steps r st) h = RunStep-Written st (RunReach-Written r h)
