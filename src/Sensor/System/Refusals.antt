-- ===== src/Sensor/System/Refusals.antt =====
-- A bulk that the worker stands at is one of the reader's: if all of those can be collected, the
-- threads reach their end.
use mathlib.Core.WellFounded.{Acc}
use linux_sensors.Base.{
  ℕ, ◌≡◌, ◌⊎◌, inl, inr, List, [], ◌∷◌, ◌++◌, true, false, some, sym, ap, subst, ◌∙◌, append_assoc,
  Outcome, ok, thrown, undefined, All,
}
use linux_sensors.Sensor.Watch.{EventsWatch}
use linux_sensors.Sensor.Reader.{EventsBulk, Reader, read_all}
use linux_sensors.Sensor.System.{Pack, System, start, Step, Reach, here, next, collect_bulk}
use linux_sensors.Sensor.System.Invariant.{reader_over, StreamIs, Inv, pointers_head}
use linux_sensors.Sensor.System.Spares.{Returns, AllReturn, SparesEnd, Returns-Spares}
use linux_sensors.Sensor.System.Delivery.{Reach-Inv}
use linux_sensors.Sensor.System.Reading.{bulks_read-prefix}
use linux_sensors.Sensor.System.Progress.{IsRefused, Reach-GoesOn}
use linux_sensors.Sensor.System.Ends.{Stops, Reach-RunsOn, Reach-Stops}

abbrev pub IsCollectable : EventsBulk → Type 0
IsCollectable bulk = (records : Pack) × (collect_bulk bulk ≡ ok records)

All-middle :
    (gone : List EventsBulk) (bulk : EventsBulk) (rest : List EventsBulk)
    → All IsCollectable (gone ++ bulk ∷ rest)
    → IsCollectable bulk
All-middle [] bulk rest (h, hs) = h
All-middle (b ∷ gone) bulk rest (h, hs) = All-middle gone bulk rest hs

ok-refused :
    (o : Outcome Pack) (records : Pack) → o ≡ ok records → ¬ ((o ≡ thrown) ⊎ (o ≡ undefined))
ok-refused o records h (inl e) = cc
ok-refused o records h (inr e) = cc

not-IsRefused :
    {s : System} {bulks : List EventsBulk} {lost : Pack} (rest all : List EventsBulk)
    → Inv bulks lost s
    → bulks ++ rest ≡ all
    → All IsCollectable all
    → ¬ IsRefused s
not-IsRefused {s} rest all inv same good refused =
    let stream =
      subst (λ w. StreamIs s.reader w s.stream_queue.queue.items inv.left) refused.stands
        inv.stream in
    let (behind, cut, _) =
      pointers_head inv.left (reader_over s.reader) refused.bulk
        (refused.left ++ s.stream_queue.queue.items) stream in
    let (gone, whole) = inv.suffix in
    let places : gone ++ refused.bulk ∷ (behind ++ rest) ≡ all =
      sym (append_assoc gone (refused.bulk ∷ behind) rest)
      ∙ ap (λ t. (gone ++ t) ++ rest) (sym cut)
      ∙ ap (λ t. t ++ rest) whole
      ∙ same in
    let (records, collects) =
      All-middle gone refused.bulk (behind ++ rest) (subst (All IsCollectable) (sym places) good) in
    ok-refused (collect_bulk refused.bulk) records collects refused.ends

Reach-first : {s t u : System} → Step s t → Reach t u → Reach s u
Reach-first st here = next here st
Reach-first st (next r st') = next (Reach-first st r) st'

AllReturn-first :
    {s t u : System} (st : Step s t) (r : Reach t u)
    → Returns st
    → AllReturn r
    → AllReturn (Reach-first st r)
unfolding Reach-first
AllReturn-first st here h k = (tt, h)
AllReturn-first st (next r st') h (k, k') = (AllReturn-first st r h k, k')

-- The threads can go on to a state with the flag up, by steps that are no throws.
abbrev pub Completes : System → Type 0
Completes s = (u : System) × (more : Reach s u) × AllReturn more × (u.finished ≡ true)

module _ (reader : Reader) (worker_watch sender_watch : EventsWatch) (pack_size : ℕ)
    (opened : reader.pipe.opened ≡ true) (fresh : reader.pipe.eof ≡ false) (fuel : ℕ)
    (bulks : List EventsBulk) (last : Reader) (reads : read_all fuel reader ≡ some (bulks, last))
    (good : All IsCollectable bulks) where
  Reach-goes :
      {s : System} (r : Reach (start reader worker_watch sender_watch pack_size) s)
      → SparesEnd r
      → (s.finished ≡ true) ⊎ ((t : System) × (st : Step s t) × Returns st)
  Reach-goes {s} r spared =
      elim (Reach-GoesOn reader worker_watch sender_watch pack_size r spared) [
        | inl over ↦ inl over
        | inr (inl on) ↦ inr on
        | inr (inr refused) ↦
            let runs = Reach-RunsOn reader worker_watch sender_watch pack_size opened fresh r in
            let (rest, whole) =
              bulks_read-prefix reader worker_watch sender_watch pack_size r runs fuel bulks last
                reads in
            absurd (
              not-IsRefused rest bulks
                (Reach-Inv reader worker_watch sender_watch pack_size r spared) whole good refused)
      ]

  Stops-Completes :
      {s : System}
      → Stops s
      → (r : Reach (start reader worker_watch sender_watch pack_size) s) → SparesEnd r
      → Completes s
  Stops-Completes {s} (Acc.intro _ later) r spared = elim (Reach-goes r spared) [
    | inl over ↦ (s, here, tt, over)
    | inr (t, st, fine) ↦
        let (u, rest, all, over) =
          Stops-Completes (later t st) (next r st) (spared, Returns-Spares st fine) in
        (u, Reach-first st rest, AllReturn-first st rest fine all, over)
  ]

  -- From every state that is reached with the nullptr spared, the threads can reach the end.
  pub Reach-Completes :
      {s : System} (r : Reach (start reader worker_watch sender_watch pack_size) s)
      → SparesEnd r
      → Completes s
  Reach-Completes r spared =
      Stops-Completes (Reach-Stops reader worker_watch sender_watch pack_size opened fresh r) r
        spared
