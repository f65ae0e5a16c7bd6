-- ===== src/Sensor/Run/Whole/Closing.antt =====
-- What `run` has written when it returns, and what the stream was handed by then.
use linux_sensors.Base.{
  ℕ, ◌^◌, ◌<◌, ◌≡◌, refl, subst, List, [], ◌++◌, Bool, false, Bytes, length, All, concat_map,
}
use linux_sensors.Base.Int.{ℤ}
use linux_sensors.Text.Completed.{newline, complete}
use linux_sensors.Trace.Whole.{IsReadable, parsed}
use linux_sensors.Socket.{LinuxServerSocket}
use linux_sensors.Sensor.Watch.{EventsWatch}
use linux_sensors.Sensor.Reader.Lines.{reader_on}
use linux_sensors.Sensor.Reader.Midway.{NoLoneByte}
use linux_sensors.Sensor.System.{start}
use linux_sensors.Sensor.System.Invariant.{joined}
use linux_sensors.Sensor.System.Parsed.{finished-parses}
use linux_sensors.Sensor.Run.Whole.{returned, Whole, RunReach, begun, threads_of}
use linux_sensors.Sensor.Run.Whole.Writes.{writes_of, starting, stopping, Written, RunReach-Written}
use linux_sensors.Sensor.Run.Whole.Flags.{returned-finished}

module _ (logging : Bool) (pids : List ℤ) (socket : LinuxServerSocket) where
  -- For a text of less than 2 ^ 62 bytes that no read cuts one byte after a line end, and whose lines
  -- have a shape of the trace: when `run` has returned, with logging or without, and no dispatch has
  -- thrown, the packs handed to the stream are, in order, the records of the lines of the text, each
  -- line taken alone; and what `run` has written to files is, in order, the condition that leaves out
  -- each of the processes `pids` to the filter of sys_enter, 1 to tracing_on, 0 to tracing_on, and 0 to
  -- the filters of raw_syscalls, of sys_enter and of sys_exit, each with a line end.
  pub run-delivers :
      (text : Bytes) (watch worker_watch sender_watch : EventsWatch) (pack_size : ℕ)
      → NoLoneByte text
      → length text < 2 ^ 62
      → All IsReadable (complete [] (text ++ newline))
      → {w : Whole}
      → RunReach logging pids socket
          (begun (start (reader_on text watch) worker_watch sender_watch pack_size))
          w
      → w.phase ≡ returned
      → w.threads.failed ≡ false
      → (joined w.threads.dispatched ≡ concat_map parsed (complete [] (text ++ newline)))
        × (writes_of w.effects ≡ starting pids ++ stopping)
  unfolding begun writes_of
  run-delivers text watch worker_watch sender_watch pack_size lone short readable {w} r at sound =
      let up =
        returned-finished logging pids socket (reader_on text watch) worker_watch sender_watch
          pack_size r at in
      (
        finished-parses text watch worker_watch sender_watch pack_size lone short readable
            (threads_of r) up sound,
        subst (λ p. Written logging pids socket p w.effects) at
            (RunReach-Written logging pids socket r refl),
      )
