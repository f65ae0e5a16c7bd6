-- ===== src/Sensor/System/Reading.antt =====
-- What the reader has made of the text so far, and that it is what `read_all` makes, whatever the
-- other threads do in between.
use linux_sensors.Base.{
  ℕ, suc, ◌*◌, ◌<◌, length, append-nil, ◌≡◌, List, [], ◌∷◌, ◌++◌, Bool, true, false, some, refl,
  append_assoc, ap, sym, subst, ◌∙◌, arith,
}
use linux_sensors.Trace.{SysParamsRecord}
use linux_sensors.Sensor.Aggregator.{DataAggregator}
use linux_sensors.Sensor.Watch.{EventsWatch}
use linux_sensors.Sensor.Reader.{
  EventsBulk, Reader, read_bulks, read_all, read_buffer_size, bulk_capacity,
}
use linux_sensors.Sensor.Reader.Rounds.{round_last, round_more, read_all_unique, read_all_ends}
use linux_sensors.Sensor.System.Ranks.{RunsOn}
use linux_sensors.Sensor.System.{
  Pack, BulkMessage, ReaderPhase, reading, ending, read_done, System, start, Step, read_round,
  read_end, take_bulks, collect_one, pack_records, meet_end, flush, tell_workers, tell_sender,
  take_packs, dispatch_pack, dispatch_throws, finish, Reach, here, next, reader_phase, reader_round,
  reader_end, worker_collect, worker_pack, flushed, worker_flush, worker_tell_workers,
  worker_tell_sender, sender_dispatch, sender_finish,
}

-- The bulks that the reader has made after a step.
unfoldable pub bulks_after : {s t : System} → List EventsBulk → Step s t → List EventsBulk
bulks_after bulks (read_round r e) = bulks ++ (read_bulks read_buffer_size bulk_capacity r).0
bulks_after bulks _ = bulks

unfoldable pub bulks_read : {s t : System} → Reach s t → List EventsBulk
bulks_read here = []
bulks_read (next r st) = bulks_after (bulks_read r) st

worker_pack-reader : (left : List BulkMessage) (s : System) → (worker_pack left s).reader ≡ s.reader
unfolding worker_pack
worker_pack-reader left s = ground arith

flushed-reader :
    (items : Pack) (agg : DataAggregator SysParamsRecord) (s : System)
    → (flushed items agg s).reader ≡ s.reader
unfolding flushed
flushed-reader [] agg s = refl
flushed-reader (r ∷ rs) agg s = refl

-- What the reader will have made in the end, from the phase where it stands.
abbrev ReadsOn : Reader → List EventsBulk → ReaderPhase → Type 0
ReadsOn r₀ bulks (reading r) =
    (fuel : ℕ) (more : List EventsBulk) (last : Reader)
    → read_all fuel r ≡ some (more, last)
    → (f : ℕ) × (read_all f r₀ ≡ some (bulks ++ more, last))
ReadsOn r₀ bulks (ending r) = (f : ℕ) × (read_all f r₀ ≡ some (bulks, r))
ReadsOn r₀ bulks read_done = (f : ℕ) × (last : Reader) × (read_all f r₀ ≡ some (bulks, last))

module _ (r : Reader) where
  round_ReadsOn :
      (r₀ : Reader) (bulks : List EventsBulk) (ended : Bool)
      → (read_bulks read_buffer_size bulk_capacity r).1.pipe.eof ≡ ended
      → ReadsOn r₀ bulks (reading r)
      → ReadsOn r₀
          (bulks ++ (read_bulks read_buffer_size bulk_capacity r).0)
          (reader_phase ended (read_bulks read_buffer_size bulk_capacity r).1)
  unfolding reader_phase
  round_ReadsOn r₀ bulks true e h = h 1 _ _ (round_last r 0 e)
  round_ReadsOn r₀ bulks false e h = λ fuel more last m.
      let (f, g) = h (suc fuel) _ last (round_more r fuel more last e m) in
      (
        f,
        g
            ∙ ap (λ t. some (t, last))
                (sym (append_assoc bulks (read_bulks read_buffer_size bulk_capacity r).0 more)),
      )

Step-ReadsOn :
    {s t : System} (r₀ : Reader) (bulks : List EventsBulk) (st : Step s t)
    → ReadsOn r₀ bulks s.reader
    → ReadsOn r₀ (bulks_after bulks st) t.reader
unfolding bulks_after reader_round reader_end worker_collect worker_flush worker_tell_workers
    worker_tell_sender sender_dispatch sender_finish
Step-ReadsOn r₀ bulks (read_round r e) h =
    round_ReadsOn r r₀ bulks _ refl (subst (ReadsOn r₀ bulks) e h)
Step-ReadsOn r₀ bulks (read_end r e) h = let (f, g) = subst (ReadsOn r₀ bulks) e h in (f, r, g)
Step-ReadsOn {s} r₀ bulks (pack_records left e) h =
    subst (ReadsOn r₀ bulks) (sym (worker_pack-reader left s)) h
Step-ReadsOn {s} r₀ bulks (flush e) h =
    subst (ReadsOn r₀ bulks) (sym (flushed-reader s.aggregator.items _ s)) h
Step-ReadsOn r₀ bulks (take_bulks ms rest e got) h = h
Step-ReadsOn r₀ bulks (collect_one bulk left records e done) h = h
Step-ReadsOn r₀ bulks (meet_end left e) h = h
Step-ReadsOn r₀ bulks (tell_workers e) h = h
Step-ReadsOn r₀ bulks (tell_sender clock e) h = h
Step-ReadsOn r₀ bulks (take_packs ms rest e got) h = h
Step-ReadsOn r₀ bulks (dispatch_pack pack left e) h = h
Step-ReadsOn r₀ bulks (dispatch_throws pack left e) h = h
Step-ReadsOn r₀ bulks (finish clock left e) h = h

module _ (reader : Reader) (worker_watch sender_watch : EventsWatch) (pack_size : ℕ) where
  Reach-ReadsOn :
      {s : System} (r : Reach (start reader worker_watch sender_watch pack_size) s)
      → ReadsOn reader (bulks_read r) s.reader
  unfolding bulks_read
  Reach-ReadsOn here = unfold start in λ fuel more last m. (fuel, m)
  Reach-ReadsOn (next r st) = Step-ReadsOn reader (bulks_read r) st (Reach-ReadsOn r)

  -- Once the reader has returned, its bulks are those of `read_all`.
  pub bulks_read-done :
      {s : System} (r : Reach (start reader worker_watch sender_watch pack_size) s)
      → s.reader ≡ read_done
      → (fuel : ℕ) (bulks : List EventsBulk) (last : Reader)
      → read_all fuel reader ≡ some (bulks, last)
      → bulks_read r ≡ bulks
  bulks_read-done r e fuel bulks last h =
      let (f, last', g) = subst (ReadsOn reader (bulks_read r)) e (Reach-ReadsOn r) in
      ap (λ p. p.0) (read_all_unique f fuel reader _ _ g h)

  -- Before that they are the first of them, since a reader in its loop would end.
  pub bulks_read-prefix :
      {s : System} (r : Reach (start reader worker_watch sender_watch pack_size) s)
      → RunsOn s.reader
      → (fuel : ℕ) (bulks : List EventsBulk) (last : Reader)
      → read_all fuel reader ≡ some (bulks, last)
      → (rest : List EventsBulk) × (bulks_read r ++ rest ≡ bulks)
  bulks_read-prefix {s} r runs fuel bulks last h = go s.reader (Reach-ReadsOn r) runs
    where
      unique :
          (f : ℕ) (all : List EventsBulk) (last' : Reader)
          → read_all f reader ≡ some (all, last')
          → all ≡ bulks
      unique f all last' g = ap (λ p. p.0) (read_all_unique f fuel reader _ _ g h)

      go :
          (p : ReaderPhase)
          → ReadsOn reader (bulks_read r) p
          → RunsOn p
          → (rest : List EventsBulk) × (bulks_read r ++ rest ≡ bulks)
      go (reading r') on (opened, fresh) =
          let enough : length r'.pipe.rest < suc (length r'.pipe.rest) * read_buffer_size =
            omega arith in
          let ((more, last'), (m, _)) =
            read_all_ends (suc (length r'.pipe.rest)) r' opened fresh enough in
          let (f, g) = on (suc (length r'.pipe.rest)) more last' m in
          (more, unique f (bulks_read r ++ more) last' g)
      go (ending r') (f, g) _ = ([], append-nil (bulks_read r) ∙ unique f (bulks_read r) r' g)
      go read_done (f, last', g) _ =
          ([], append-nil (bulks_read r) ∙ unique f (bulks_read r) last' g)
