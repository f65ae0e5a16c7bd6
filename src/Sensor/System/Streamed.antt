-- ===== src/Sensor/System/Streamed.antt =====
-- What the stream of the sensor holds in the end, however the records were cut into packs.
use linux_sensors.Base.{
  ℕ, ◌^◌, ◌<◌, ◌++◌, ◌≡◌, List, [], ◌∷◌, Bytes, true, false, ap, sym, ◌∙◌, length, All, concat_map,
}
use linux_sensors.Text.Completed.{newline, complete}
use linux_sensors.Trace.Whole.{IsReadable, parsed}
use linux_sensors.Stream.Interface.{SensorStream, dispatch_all}
use linux_sensors.Stream.Interface.Chunks.{IsChunked}
use linux_sensors.Sensor.Watch.{EventsWatch}
use linux_sensors.Sensor.Reader.Lines.{reader_on}
use linux_sensors.Sensor.Reader.Midway.{NoLoneByte}
use linux_sensors.Sensor.System.{Pack, System, start, Reach}
use linux_sensors.Sensor.System.Invariant.{joined}
use linux_sensors.Sensor.System.Parsed.{finished-parses}

module _ {ℓ} {S : Type ℓ} (stream : SensorStream S) (chunked : IsChunked stream) where
  dispatch_all-joined :
      (packs : List Pack) (s : S) → dispatch_all stream packs s ≡ stream.dispatch (joined packs) s
  unfolding dispatch_all
  dispatch_all-joined [] s = sym (chunked.empty_pack s)
  dispatch_all-joined (pack ∷ packs) s =
      dispatch_all-joined packs (stream.dispatch pack s)
      ∙ sym (chunked.two_packs pack (joined packs) s)

  -- For a stream whose state the cut into packs does not change, a text of less than 2 ^ 62 bytes that
  -- no read cuts one byte after a line end, and lines that have a shape of the trace: when the flag
  -- `finished` is up and no dispatch has thrown, the stream is where one dispatch of the records of
  -- all lines of the text leaves it, whatever the interleaving of the threads and the size of a pack.
  pub finished-streams :
      (text : Bytes) (watch worker_watch sender_watch : EventsWatch) (pack_size : ℕ)
      → NoLoneByte text
      → length text < 2 ^ 62
      → All IsReadable (complete [] (text ++ newline))
      → {s : System} → Reach (start (reader_on text watch) worker_watch sender_watch pack_size) s
      → s.finished ≡ true
      → s.failed ≡ false
      → (content : S)
      → dispatch_all stream s.dispatched content
        ≡ stream.dispatch (concat_map parsed (complete [] (text ++ newline))) content
  finished-streams text watch worker_watch sender_watch pack_size lone short readable {s} r over
        sound content =
      dispatch_all-joined s.dispatched content
      ∙ ap (λ records. stream.dispatch records content)
          (finished-parses text watch worker_watch sender_watch pack_size lone short readable r over
            sound)
