-- ===== src/Sensor/System/Progress.antt =====
-- That the threads never wait for one another: in each state that is reached one of them has a step.
use linux_sensors.Base.{
  ℕ, ◌≡◌, ◌≢◌, ◌⊎◌, List, [], ◌∷◌, ◌++◌, true, none, some, refl, sym, subst, Outcome, ok, thrown,
  undefined, inl, inr,
}
use linux_sensors.Queue.{MessageQueue, receive_bulk, wait_dequeue_bulk, wait_bulk}
use linux_sensors.Sensor.Watch.{EventsWatch}
use linux_sensors.Sensor.Reader.{EventsBulk, Reader, bulk_capacity}
use linux_sensors.Sensor.System.{
  Pack, BulkMessage, ReaderPhase, reading, ending, read_done, WorkerPhase, worker_waiting, working,
  packing, flushing, telling_workers, telling_sender, work_done, SenderPhase, sender_waiting,
  sending, send_done, System, pointers, collect_bulk, Step, read_round, read_end, take_bulks,
  collect_one, pack_records, meet_end, flush, tell_workers, tell_sender, take_packs, dispatch_pack,
  finish, Reach, here, next, start, reader_round, reader_end, worker_collect, worker_flush,
  worker_tell_workers, worker_tell_sender, sender_dispatch, sender_finish,
}
use linux_sensors.Sensor.System.Invariant.{StreamIs, ResultIs}
use linux_sensors.Sensor.System.Spares.{Returns, SparesEnd}
use linux_sensors.Sensor.System.Delivery.{Reach-Inv}
use linux_sensors.Sensor.System.Proper.{IsProper, Step-IsProper}

-- The worker stands at a bulk whose collection throws or leaves the defined behaviour.
pub record IsRefused (s : System) : Type 0 where
  pub bulk : EventsBulk
  pub left : List BulkMessage
  pub stands : s.worker ≡ working (some bulk ∷ left)
  pub ends : (collect_bulk bulk ≡ thrown) ⊎ (collect_bulk bulk ≡ undefined)

abbrev pub GoesOn : System → Type 0
GoesOn s = ((t : System) × (st : Step s t) × Returns st) ⊎ IsRefused s

receive_cons {ℓ} :
    {A : Type ℓ} (x : A) (xs : List A)
    → (got : List A × MessageQueue A) × (receive_bulk bulk_capacity
          (record { queue = record { items = x ∷ xs } })
        ≡ some got)
unfolding receive_bulk wait_dequeue_bulk wait_bulk
receive_cons x xs = (_, refl)

receive_some {ℓ} :
    {A : Type ℓ} (q : MessageQueue A) (items : List A)
    → q.queue.items ≡ items
    → items ≢ []
    → (got : List A × MessageQueue A) × (receive_bulk bulk_capacity q ≡ some got)
receive_some q [] e h = absurd (h refl)
receive_some {A = A} q (x ∷ xs) e h =
    subst
      (λ is.
        (got : List A × MessageQueue A) × (receive_bulk bulk_capacity
            (record { queue = record { items = is } })
          ≡ some got))
      (sym e) (receive_cons x xs)

sentinel_left {ℓ} : {A : Type ℓ} (xs : List A) → pointers xs ++ none ∷ [] ≢ []
sentinel_left [] = λ e. cc
sentinel_left (x ∷ xs) = λ e. cc

module _ (s : System) where
  collect_GoesOn :
      (bulk : EventsBulk) (left : List BulkMessage) (o : Outcome Pack)
      → s.worker ≡ working (some bulk ∷ left)
      → collect_bulk bulk ≡ o
      → GoesOn s
  unfolding worker_collect
  collect_GoesOn bulk left (ok records) e c = inl (_, collect_one bulk left records e c, tt)
  collect_GoesOn bulk left thrown e c =
      inr (record { bulk = bulk; left = left; stands = e; ends = inl c })
  collect_GoesOn bulk left undefined e c =
      inr (record { bulk = bulk; left = left; stands = e; ends = inr c })

  -- Once the reader has returned, so has the worker, or it goes on.
  worker_GoesOn :
      (w : WorkerPhase) (left : List EventsBulk)
      → s.worker ≡ w
      → StreamIs read_done w s.stream_queue.queue.items left
      → w ≢ working []
      → (w ≡ work_done) ⊎ GoesOn s
  unfolding worker_flush worker_tell_workers worker_tell_sender
  worker_GoesOn worker_waiting left e h p =
      let ((ms, rest), got) = receive_some s.stream_queue _ h (sentinel_left left) in
      inr (inl (_, take_bulks ms rest e got, tt))
  worker_GoesOn (working []) left e h p = absurd (p refl)
  worker_GoesOn (working (some bulk ∷ ms)) left e h p =
      inr (collect_GoesOn bulk ms (collect_bulk bulk) e refl)
  worker_GoesOn (working (none ∷ ms)) left e h p = inr (inl (_, meet_end ms e, tt))
  worker_GoesOn (packing ms) left e h p = inr (inl (_, pack_records ms e, tt))
  worker_GoesOn flushing left e h p = inr (inl (_, flush e, tt))
  worker_GoesOn telling_workers left e h p = inr (inl (_, tell_workers e, tt))
  worker_GoesOn telling_sender left e h p = inr (inl (_, tell_sender 0 e, tt))
  worker_GoesOn work_done left e h p = inl refl

  -- Once the worker has returned, so has the sender, or it goes on.
  sender_GoesOn :
      (p : SenderPhase) (packs : List Pack)
      → s.sender ≡ p
      → ResultIs work_done p s.result_queue.queue.items packs
      → p ≢ sending []
      → (p ≡ send_done) ⊎ GoesOn s
  unfolding sender_dispatch sender_finish
  sender_GoesOn sender_waiting packs e h p =
      let ((ms, rest), got) = receive_some s.result_queue _ h (sentinel_left packs) in
      inr (inl (_, take_packs ms rest e got, tt))
  sender_GoesOn (sending []) packs e h p = absurd (p refl)
  sender_GoesOn (sending (some pack ∷ ms)) packs e h p = inr (inl (_, dispatch_pack pack ms e, tt))
  sender_GoesOn (sending (none ∷ ms)) packs e h p = inr (inl (_, finish 0 ms e, tt))
  sender_GoesOn send_done packs e h p = inl refl

  reader_GoesOn : (p : ReaderPhase) → s.reader ≡ p → (p ≡ read_done) ⊎ GoesOn s
  unfolding reader_round reader_end
  reader_GoesOn (reading r) e = inr (inl (_, read_round r e, tt))
  reader_GoesOn (ending r) e = inr (inl (_, read_end r e, tt))
  reader_GoesOn read_done e = inl refl

module _ (reader : Reader) (worker_watch sender_watch : EventsWatch) (pack_size : ℕ) where
  pub Reach-IsProper :
      {s : System} → Reach (start reader worker_watch sender_watch pack_size) s → IsProper s
  unfolding start
  Reach-IsProper here = record { has_bulk = λ e. cc; has_pack = λ e. cc; flag = λ e. cc }
  Reach-IsProper (next r st) = Step-IsProper st (Reach-IsProper r)

  -- No deadlock: in every state that is reached with no throw that dropped a nullptr, the flag
  -- `finished` is up, or a thread has a step that is no throw, or the worker stands at a bulk whose
  -- collection does not return.
  pub Reach-GoesOn :
      {s : System} (r : Reach (start reader worker_watch sender_watch pack_size) s)
      → SparesEnd r
      → (s.finished ≡ true) ⊎ GoesOn s
  Reach-GoesOn {s} r spared =
      let inv = Reach-Inv reader worker_watch sender_watch pack_size r spared in
      let proper = Reach-IsProper r in
      elim (reader_GoesOn s s.reader refl) [
        | inr on ↦ inr on
        | inl read ↦
            let stream =
              subst (λ p. StreamIs p s.worker s.stream_queue.queue.items inv.left) read
                inv.stream in
            elim (worker_GoesOn s s.worker inv.left refl stream proper.has_bulk) [
              | inr on ↦ inr on
              | inl worked ↦
                  let result =
                    subst (λ w. ResultIs w s.sender s.result_queue.queue.items inv.packs) worked
                      inv.result in
                  elim (sender_GoesOn s s.sender inv.packs refl result proper.has_pack) [
                    | inr on ↦ inr on
                    | inl sent ↦ inl (proper.flag sent)
                  ]
            ]
      ]
