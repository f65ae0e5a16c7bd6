-- ===== src/Sensor/System/Throw.antt =====
-- What an exception in `dispatch` costs: the handler of `_send_stream` drops the messages that were
-- dequeued with the pack, the closing nullptr among them.
use linux_sensors.Base.{
  ℕ, ◌≡◌, List, [], ◌∷◌, ◌++◌, Bool, true, false, none, some, refl, sym, subst, ◌∙◌, none-ne-some,
  append_assoc, Bool-cases, inl, inr, ◌⊎◌, All, ap,
}
use linux_sensors.Queue.{MessageQueue, receive_bulk, wait_dequeue_bulk, wait_bulk}
use linux_sensors.Sensor.Watch.{EventsWatch}
use linux_sensors.Sensor.Reader.{EventsBulk, Reader, bulk_capacity}
use linux_sensors.Sensor.System.{
  Pack, PackMessage, read_done, work_done, send_done, sender_waiting, sending, System, pointers,
  Step, read_round, read_end, take_bulks, collect_one, pack_records, meet_end, flush, tell_workers,
  tell_sender, take_packs, dispatch_pack, dispatch_throws, finish, Reach, here, next, start,
  reader_round, reader_end,
}
use linux_sensors.Sensor.System.Spares.{IsPack, Spares, SparesEnd}
use linux_sensors.Sensor.System.Invariant.{Inv, sentinel, worker_over, ResultIs}
use linux_sensors.Sensor.System.Steps.{worker_over-done}
use linux_sensors.Sensor.System.Delivery.{Reach-Inv, Inv-over}

-- The worker has returned, and the sender waits for a message that nobody sends.
record IsStuck (s : System) : Type 0 where
  worked : s.worker ≡ work_done
  drained : s.result_queue.queue.items ≡ []
  waits : s.sender ≡ sender_waiting
  open_flag : s.finished ≡ false

wait_empty :
    (q : MessageQueue PackMessage) → q.queue.items ≡ [] → receive_bulk bulk_capacity q ≡ none
unfolding receive_bulk wait_dequeue_bulk
wait_empty q h = rw (h, wait_bulk) refl

Step-IsStuck : {s t : System} → Step s t → IsStuck s → IsStuck t
Step-IsStuck (read_round r e) k =
    unfold reader_round in
    record { worked = k.worked; drained = k.drained; waits = k.waits; open_flag = k.open_flag }
Step-IsStuck (read_end r e) k =
    unfold reader_end in
    record { worked = k.worked; drained = k.drained; waits = k.waits; open_flag = k.open_flag }
Step-IsStuck (take_bulks ms rest e got) k = absurd (cc (e, k.worked))
Step-IsStuck (collect_one bulk left records e done) k = absurd (cc (e, k.worked))
Step-IsStuck (pack_records left e) k = absurd (cc (e, k.worked))
Step-IsStuck (meet_end left e) k = absurd (cc (e, k.worked))
Step-IsStuck (flush e) k = absurd (cc (e, k.worked))
Step-IsStuck (tell_workers e) k = absurd (cc (e, k.worked))
Step-IsStuck (tell_sender clock e) k = absurd (cc (e, k.worked))
Step-IsStuck {s} (take_packs ms rest e got) k =
    absurd (none-ne-some (ms, rest) (sym (wait_empty s.result_queue k.drained) ∙ got))
Step-IsStuck (dispatch_pack pack left e) k = absurd (cc (e, k.waits))
Step-IsStuck (dispatch_throws pack left e) k = absurd (cc (e, k.waits))
Step-IsStuck (finish clock left e) k = absurd (cc (e, k.waits))

Reach-IsStuck : {s t : System} → Reach s t → IsStuck s → IsStuck t
Reach-IsStuck here k = k
Reach-IsStuck (next r st) k = Step-IsStuck st (Reach-IsStuck r k)

append-ne-nil : (front back : List PackMessage) (m : PackMessage) → ¬ (front ++ m ∷ back ≡ [])
append-ne-nil [] back m h = cc
append-ne-nil (x ∷ front) back m h = cc

right-eq-nil : (xs ys : List PackMessage) → xs ++ ys ≡ [] → ys ≡ []
right-eq-nil [] ys h = h
right-eq-nil (x ∷ xs) ys h = cc

-- A nullptr among the messages is the last one, and the worker has returned.
last_message :
    (front back : List PackMessage) (packs : List Pack) (over : Bool)
    → front ++ none ∷ back ≡ pointers packs ++ sentinel over
    → (over ≡ true) × (back ≡ [])
last_message [] back [] true h = (refl, cc)
last_message [] back [] false h = cc
last_message [] back (p ∷ ps) over h = cc
last_message (some p ∷ front) back [] true h = cc
last_message (none ∷ front) back [] true h =
    let e : front ++ none ∷ back ≡ [] = cc in absurd (append-ne-nil front back none e)
last_message (m ∷ front) back [] false h = cc
last_message (m ∷ front) back (p ∷ ps) over h = last_message front back ps over cc

-- Among messages that were dequeued, either there is no nullptr, or there is one.
pick_end :
    (ms : List PackMessage)
    → All IsPack ms ⊎ ((front back : List PackMessage) × (ms ≡ front ++ none ∷ back))
pick_end [] = inl tt
pick_end (none ∷ ms) = inr ([], ms, refl)
pick_end (some p ∷ ms) = elim (pick_end ms) [
  | inl all ↦ inl (tt, all)
  | inr (front, back, same) ↦ inr (some p ∷ front, back, ap (λ t. some p ∷ t) same)
]

drop-IsStuck :
    {bulks : List EventsBulk} {lost : Pack} {s : System}
    → Inv bulks lost s
    → (pack : Pack) (front back : List PackMessage)
    → s.sender ≡ sending (some pack ∷ (front ++ none ∷ back))
    → IsStuck (record s { sender = sender_waiting; failed = true })
drop-IsStuck {s = s} inv pack front back e =
    let waiting =
      subst (λ p. ResultIs s.worker p s.result_queue.queue.items inv.packs) e inv.result in
    let (over, rest) =
      last_message (some pack ∷ front) (back ++ s.result_queue.queue.items) inv.packs
        (worker_over s.worker)
        (sym (append_assoc (some pack ∷ front) (none ∷ back) s.result_queue.queue.items)
          ∙ waiting) in
    record {
      worked = worker_over-done s.worker over;
      drained = right-eq-nil back s.result_queue.queue.items rest;
      waits = refl;
      open_flag = elim (Bool-cases s.finished) [ inl f ↦ cc (e, inv.over f) | inr f ↦ f ];
    }

Step-Spares :
    {bulks : List EventsBulk} {lost : Pack} {s t : System} (st : Step s t)
    → Inv bulks lost s
    → Spares st ⊎ IsStuck t
Step-Spares {s = s} (dispatch_throws pack left e) inv = elim (pick_end left) [
  | inl all ↦ inl all
  | inr (front, back, same) ↦
      inr (drop-IsStuck inv pack front back (e ∙ ap (λ t. sending (some pack ∷ t)) same))
]
Step-Spares (read_round r e) inv = inl tt
Step-Spares (read_end r e) inv = inl tt
Step-Spares (take_bulks ms rest e got) inv = inl tt
Step-Spares (collect_one bulk left records e done) inv = inl tt
Step-Spares (pack_records left e) inv = inl tt
Step-Spares (meet_end left e) inv = inl tt
Step-Spares (flush e) inv = inl tt
Step-Spares (tell_workers e) inv = inl tt
Step-Spares (tell_sender clock e) inv = inl tt
Step-Spares (take_packs ms rest e got) inv = inl tt
Step-Spares (dispatch_pack pack left e) inv = inl tt
Step-Spares (finish clock left e) inv = inl tt

module _ (reader : Reader) (worker_watch sender_watch : EventsWatch) (pack_size : ℕ) where
  Reach-SparesEnd :
      {s : System} (r : Reach (start reader worker_watch sender_watch pack_size) s)
      → SparesEnd r ⊎ IsStuck s
  Reach-SparesEnd here = inl tt
  Reach-SparesEnd (next r st) = elim (Reach-SparesEnd r) [
    | inr stuck ↦ inr (Step-IsStuck st stuck)
    | inl spared ↦
        elim (Step-Spares st (Reach-Inv reader worker_watch sender_watch pack_size r spared)) [
          | inl fine ↦ inl (spared, fine)
          | inr stuck ↦ inr stuck
        ]
  ]

  -- If a state with the flag up can still be reached, each throw so far has spared the nullptr.
  pub finished-SparesEnd :
      {s u : System} (r : Reach (start reader worker_watch sender_watch pack_size) s)
      → Reach s u
      → u.finished ≡ true
      → SparesEnd r
  finished-SparesEnd r later over = elim (Reach-SparesEnd r) [
    | inl spared ↦ spared
    | inr stuck ↦ absurd (cc (over, (Reach-IsStuck later stuck).open_flag))
  ]

  -- Once the flag is up, the three threads have returned.
  pub finished_over :
      {s : System}
      → Reach (start reader worker_watch sender_watch pack_size) s
      → s.finished ≡ true
      → (s.reader ≡ read_done) × (s.worker ≡ work_done) × (s.sender ≡ send_done)
  finished_over r over =
      let spared = finished-SparesEnd r here over in
      let (read, worked, sent, _) =
        Inv-over (Reach-Inv reader worker_watch sender_watch pack_size r spared) over in
      (read, worked, sent)

  -- If a dispatch throws for a pack that was dequeued together with the closing nullptr, and no
  -- earlier throw dropped it, then whatever happens afterwards the flag `finished` is never raised, so
  -- `run` and `join` do not return.
  pub throw_hangs :
      {s u : System} (r : Reach (start reader worker_watch sender_watch pack_size) s)
      → SparesEnd r
      → (pack : Pack) (front back : List PackMessage)
      → s.sender ≡ sending (some pack ∷ (front ++ none ∷ back))
      → Reach (record s { sender = sender_waiting; failed = true }) u
      → u.finished ≡ false
  throw_hangs r spared pack front back e later =
      let inv = Reach-Inv reader worker_watch sender_watch pack_size r spared in
      (Reach-IsStuck later (drop-IsStuck inv pack front back e)).open_flag
