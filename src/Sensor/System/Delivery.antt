-- ===== src/Sensor/System/Delivery.antt =====
-- What the sender has dispatched when it raises the flag `finished`, for every interleaving.
use mathlib.Core.List.Perm
use linux_sensors.Base.{
  ℕ, ◌≡◌, List, [], ◌++◌, true, false, some, refl, append_assoc, append-nil, ap, subst, ◌∙◌,
}
use linux_sensors.Queue.{empty_queue}
use linux_sensors.Sensor.Aggregator.{new_aggregator}
use linux_sensors.Sensor.Watch.{EventsWatch}
use linux_sensors.Sensor.Reader.{EventsBulk, Reader, read_all}
use linux_sensors.Sensor.System.{
  Pack, read_done, work_done, send_done, System, start, Step, read_round, read_end, take_bulks,
  collect_one, pack_records, meet_end, flush, tell_workers, tell_sender, take_packs, dispatch_pack,
  dispatch_throws, finish, Reach, here, next,
}
use linux_sensors.Sensor.System.Invariant.{
  Held, records_of, joined, StreamIs, ResultIs, Drained, Inv,
}
use linux_sensors.Sensor.System.Spares.{
  lost_after, lost_in, Spares, SparesEnd, sound-SparesEnd, dispatch_throws-Inv,
}
use linux_sensors.Sensor.System.Reading.{bulks_after, bulks_read, bulks_read-done}
use linux_sensors.Sensor.System.Steps.{
  reader_round-Inv, reader_end-Inv, take_bulks-Inv, collect_one-Inv, pack_records-Inv, meet_end-Inv,
  worker_flush-Inv, tell_workers-Inv, tell_sender-Inv, take_packs-Inv, dispatch_pack-Inv,
  finish-Inv,
}

-- Every step keeps the invariant, but a throw that drops the nullptr.
pub Step-Inv :
    {s t : System} (bulks : List EventsBulk) (lost : Pack) (st : Step s t)
    → Spares st
    → Inv bulks lost s
    → Inv (bulks_after bulks st) (lost_after lost st) t
unfolding bulks_after lost_after
Step-Inv bulks lost (read_round r e) spared inv = reader_round-Inv inv r e
Step-Inv bulks lost (read_end r e) spared inv = reader_end-Inv inv r e
Step-Inv bulks lost (take_bulks ms rest e got) spared inv = take_bulks-Inv inv ms rest e got
Step-Inv bulks lost (collect_one bulk left records e done) spared inv =
    collect_one-Inv inv bulk left records e done
Step-Inv bulks lost (pack_records left e) spared inv = pack_records-Inv inv left e
Step-Inv bulks lost (meet_end left e) spared inv = meet_end-Inv inv left e
Step-Inv bulks lost (flush e) spared inv = worker_flush-Inv inv e
Step-Inv bulks lost (tell_workers e) spared inv = tell_workers-Inv inv e
Step-Inv bulks lost (tell_sender clock e) spared inv = tell_sender-Inv inv clock e
Step-Inv bulks lost (take_packs ms rest e got) spared inv = take_packs-Inv inv ms rest e got
Step-Inv bulks lost (dispatch_pack pack left e) spared inv = dispatch_pack-Inv inv pack left e
Step-Inv bulks lost (dispatch_throws pack left e) spared inv =
    dispatch_throws-Inv inv pack left e spared
Step-Inv bulks lost (finish clock left e) spared inv = finish-Inv inv clock left e

module _ (reader : Reader) (worker_watch sender_watch : EventsWatch) (pack_size : ℕ) where
  start-Inv : Inv [] [] (start reader worker_watch sender_watch pack_size)
  unfolding start empty_queue new_aggregator
  start-Inv = record {
    left = [];
    suffix = ([], refl);
    packs = [];
    stream = refl;
    result = refl;
    drained = tt;
    held = record { total = λ sound. refl; parts = Perm.refl [] };
    over = λ f. cc;
  }

  pub Reach-Inv :
      {s : System} (r : Reach (start reader worker_watch sender_watch pack_size) s)
      → SparesEnd r
      → Inv (bulks_read r) (lost_in r) s
  unfolding bulks_read lost_in
  Reach-Inv here h = start-Inv
  Reach-Inv (next r st) (h, k) = Step-Inv (bulks_read r) (lost_in r) st k (Reach-Inv r h)

all_out :
    (d : Pack) (packs : List Pack) (items : Pack) (left : List EventsBulk)
    → packs ≡ []
    → items ≡ []
    → left ≡ []
    → d ++ joined packs ++ items ++ records_of left ≡ d
all_out d packs items left p q r = rw (p, q, r) (simp append-nil)

-- The sender raises the flag last: the other threads have returned, and nothing is under way.
pub Inv-over :
    {bulks : List EventsBulk} {lost : Pack} {s : System}
    → Inv bulks lost s
    → s.finished ≡ true
    → (s.reader ≡ read_done)
      × (s.worker ≡ work_done)
      × (s.sender ≡ send_done)
      × Held s.failed bulks lost (joined s.dispatched)
Inv-over {bulks} {lost} {s} inv f =
    let (no_packs, worker) =
      subst (λ p. ResultIs s.worker p s.result_queue.queue.items inv.packs) (inv.over f)
        inv.result in
    let (no_left, reader) =
      subst (λ w. StreamIs s.reader w s.stream_queue.queue.items inv.left) worker inv.stream in
    let no_items = subst (λ w. Drained w s.aggregator.items) worker inv.drained in
    (
      reader,
      worker,
      inv.over f,
      subst (Held s.failed bulks lost)
          (all_out (joined s.dispatched) inv.packs s.aggregator.items inv.left no_packs no_items
            no_left)
          inv.held,
    )

module _ (reader : Reader) (worker_watch sender_watch : EventsWatch) (pack_size : ℕ) where
  -- In every interleaving of the three threads: when the flag `finished` is up and no dispatch has
  -- thrown, the reader and the worker have returned, and the packs handed to the stream are, in
  -- order, the records of all the bulks that the reader makes of the text; none is lost, doubled or
  -- moved. (`bulks` is what the loop of `_read_stream` makes, if it ends.)
  pub finished-delivers :
      {s : System} (r : Reach (start reader worker_watch sender_watch pack_size) s)
      → s.finished ≡ true
      → s.failed ≡ false
      → (fuel : ℕ) (bulks : List EventsBulk) (last : Reader)
      → read_all fuel reader ≡ some (bulks, last)
      → (s.reader ≡ read_done) × (s.worker ≡ work_done) × (joined s.dispatched ≡ records_of bulks)
  finished-delivers r over sound fuel bulks last h =
      let (read, worked, _, all) =
        Inv-over (Reach-Inv reader worker_watch sender_watch pack_size r (sound-SparesEnd r sound))
          over in
      (
        read,
        worked,
        all.total sound
            ∙ ap records_of (
                bulks_read-done reader worker_watch sender_watch pack_size r read fuel bulks last
                  h),
      )

  -- At any moment at which no dispatch has thrown, the packs handed to the stream are the first of
  -- the records of the bulks read so far, in order.
  pub dispatched_prefix :
      {s : System} (r : Reach (start reader worker_watch sender_watch pack_size) s)
      → s.failed ≡ false
      → (rest : Pack) × (joined s.dispatched ++ rest ≡ records_of (bulks_read r))
  dispatched_prefix {s} r sound =
      let inv = Reach-Inv reader worker_watch sender_watch pack_size r (sound-SparesEnd r sound) in
      (
        joined inv.packs ++ (s.aggregator.items ++ records_of inv.left),
        simp append_assoc at (inv.held.total sound),
      )
