-- ===== src/Sensor/System/Ends.antt =====
-- The threads of the sensor stop: no execution goes on for ever once `trace_pipe` was opened.
use mathlib.Core.WellFounded.{Acc}
use linux_sensors.Base.{ℕ, zero, suc, ◌≤◌, ◌<◌, ◌≡◌, inl, inr, true, false, arith}
use linux_sensors.Sensor.Watch.{EventsWatch}
use linux_sensors.Sensor.Reader.{Reader}
use linux_sensors.Sensor.System.{System, start, Step, Reach, here, next}
use linux_sensors.Sensor.System.Ranks.{reader_left, worker_left, sender_left, RunsOn, Step-Falls}

-- The state after a step comes after the state before it.
abbrev pub After : System → System → Type 0
After t s = Step s t

-- The threads run no further than finitely many steps.
abbrev pub Stops : System → Type 0
Stops = Acc After

-- The reader has at most `a` left, the worker at most `b`, and the sender less than `c`.
sender_Stops :
    (a b c : ℕ) (s : System)
    → ((t : System) → RunsOn t.reader → reader_left t < a → Stops t)
    → ((t : System) → RunsOn t.reader → reader_left t ≤ a → worker_left t < b → Stops t)
    → RunsOn s.reader
    → reader_left s ≤ a
    → worker_left s ≤ b
    → sender_left s < c
    → Stops s
sender_Stops a b zero s less_reader less_worker runs ha hb hc = absurd (omega arith)
sender_Stops a b (suc c) s less_reader less_worker runs ha hb hc = Acc.intro s (λ t st.
    let (falls, on) = Step-Falls st runs in
    elim falls [
      | inl fewer ↦ less_reader t on (omega (arith, fewer, ha))
      | inr (same, inl fewer) ↦
          less_worker t on (omega (arith, same, ha)) (omega (arith, fewer, hb))
      | inr (same, inr (same', fewer)) ↦
          sender_Stops a b c t less_reader less_worker on (omega (arith, same, ha))
            (omega (arith, same', hb)) (omega (arith, fewer, hc))
    ])

worker_Stops :
    (a b : ℕ) (s : System)
    → ((t : System) → RunsOn t.reader → reader_left t < a → Stops t)
    → RunsOn s.reader
    → reader_left s ≤ a
    → worker_left s < b
    → Stops s
worker_Stops a zero s less_reader runs ha hb = absurd (omega arith)
worker_Stops a (suc b) s less_reader runs ha hb =
    sender_Stops a b (suc (sender_left s)) s less_reader
      (λ t on ha' hb'. worker_Stops a b t less_reader on ha' hb') runs ha (omega (arith, hb))
      (omega arith)

reader_Stops : (a : ℕ) (s : System) → RunsOn s.reader → reader_left s < a → Stops s
reader_Stops zero s runs ha = absurd (omega arith)
reader_Stops (suc a) s runs ha =
    worker_Stops a (suc (worker_left s)) s (λ t on ha'. reader_Stops a t on ha') runs
      (omega (arith, ha)) (omega arith)

module _ (reader : Reader) (worker_watch sender_watch : EventsWatch) (pack_size : ℕ) where
  pub Reach-RunsOn :
      {s : System}
      → reader.pipe.opened ≡ true
      → reader.pipe.eof ≡ false
      → Reach (start reader worker_watch sender_watch pack_size) s
      → RunsOn s.reader
  unfolding start
  Reach-RunsOn opened fresh here = (opened, fresh)
  Reach-RunsOn opened fresh (next r st) = (Step-Falls st (Reach-RunsOn opened fresh r)).1

  -- Every execution of the three threads is finite, whatever the interleaving and whether a dispatch
  -- throws or not, if `trace_pipe` was opened and is not at its end before the first read, of a
  -- trace that is a finite text, whose reads never wait.
  pub Reach-Stops :
      {s : System}
      → reader.pipe.opened ≡ true
      → reader.pipe.eof ≡ false
      → Reach (start reader worker_watch sender_watch pack_size) s
      → Stops s
  Reach-Stops {s} opened fresh r =
      reader_Stops (suc (reader_left s)) s (Reach-RunsOn opened fresh r) (omega arith)
