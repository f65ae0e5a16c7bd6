-- ===== src/Queue/Order.antt =====
-- The queue hands the messages out in the order in which they came, and loses none.
use linux_sensors.Base.{
  ℕ, zero, suc, ◌<◌, ◌≡◌, refl, ap, sym, ◌∙◌, List, [], ◌∷◌, ◌++◌, append-nil, append_assoc, Option,
  none, some, some-injective, none-ne-some, Option-cases, inl, inr, ap₂, take-append-drop, length,
  take, drop, take-of_le, arith, ◌≢◌,
}
use linux_sensors.Queue.{
  SafeQueue, enqueue, enqueue_bulk, pop_bulk, wait_bulk, wait_dequeue_bulk, MessageQueue, send_bulk,
  receive_bulk,
}

module _ {ℓ} {A : Type ℓ} where
  pub enqueue_bulk-items :
      (messages : List A) (size : ℕ) (q : SafeQueue A)
      → (enqueue_bulk messages size q).items ≡ q.items ++ take size messages
  unfolding enqueue_bulk enqueue
  enqueue_bulk-items messages zero q = sym (append-nil q.items)
  enqueue_bulk-items [] (suc size) q = sym (append-nil q.items)
  enqueue_bulk-items (m ∷ messages) (suc size) q =
      enqueue_bulk-items messages size (enqueue m q)
      ∙ append_assoc q.items (m ∷ []) (take size messages)

  pub send_bulk-items :
      (messages : List A) (q : MessageQueue A)
      → (send_bulk messages (length messages) q).queue.items ≡ q.queue.items ++ messages
  unfolding send_bulk
  send_bulk-items messages q =
      enqueue_bulk-items messages (length messages) q.queue
      ∙ ap (λ t. q.queue.items ++ t) (take-of_le (length messages) messages (omega arith))

  pop_bulk_lem :
      (capacity : ℕ) (q : List A)
      → ((pop_bulk capacity q).0 ≡ take capacity q)
        × ((pop_bulk capacity q).1.items ≡ drop capacity q)
  unfolding pop_bulk
  pop_bulk_lem zero q = (refl, refl)
  pop_bulk_lem (suc capacity) [] = (refl, refl)
  pop_bulk_lem (suc capacity) (x ∷ q) =
      let (e, e') = pop_bulk_lem capacity q in (ap (λ t. x ∷ t) e, e')

  take-drop_nonempty : (capacity : ℕ) (q : List A) → q ≢ [] → 0 < capacity → take capacity q ≢ []
  take-drop_nonempty zero q h lt = absurd (omega arith)
  take-drop_nonempty (suc capacity) [] h lt = λ e. h refl
  take-drop_nonempty (suc capacity) (x ∷ q) h lt = λ e. cc

  wait_bulk_lem :
      (capacity : ℕ) (items taken : List A) (rest : SafeQueue A)
      → wait_bulk capacity items ≡ some (taken, rest)
      → (taken ≡ take capacity items) × (rest.items ≡ drop capacity items) × (items ≢ [])
  unfolding wait_bulk
  wait_bulk_lem capacity [] taken rest h = cc
  wait_bulk_lem capacity (x ∷ items) taken rest h =
      let (e, e') = pop_bulk_lem capacity (x ∷ items) in
      let same = some-injective (pop_bulk capacity (x ∷ items)) (taken, rest) h in
      (ap (λ p. p.0) (sym same) ∙ e, ap (λ p. p.1.items) (sym same) ∙ e', λ n. cc)

  -- A bulk dequeue that returns takes the oldest messages, as many as there are up to the capacity,
  -- leaves the others in their order, and had a message to take.
  pub wait_dequeue_bulk-splits :
      (capacity : ℕ) (q : SafeQueue A) (taken : List A) (rest : SafeQueue A)
      → wait_dequeue_bulk capacity q ≡ some (taken, rest)
      → (taken ≡ take capacity q.items) × (rest.items ≡ drop capacity q.items) × (q.items ≢ [])
  unfolding wait_dequeue_bulk
  wait_dequeue_bulk-splits capacity q taken rest h = wait_bulk_lem capacity q.items taken rest h

  receive_bulk-splits :
      (capacity : ℕ) (q : MessageQueue A) (taken : List A) (rest : MessageQueue A)
      → receive_bulk capacity q ≡ some (taken, rest)
      → (taken ≡ take capacity q.queue.items)
        × (rest.queue.items ≡ drop capacity q.queue.items)
        × (q.queue.items ≢ [])
  unfolding receive_bulk
  receive_bulk-splits capacity q taken rest h =
      elim (Option-cases (wait_dequeue_bulk capacity q.queue)) [
        | inl e ↦ absurd (none-ne-some (taken, rest) (rw (e, receive_bulk) at h))
        | inr ((taken', rest'), e) ↦
            let same =
              some-injective (taken', record { queue = rest' }) (taken, rest)
                (rw (e, receive_bulk) at h) in
            rw (ap (λ p. p.0) (sym same), ap (λ p. p.1.queue.items) (sym same))
              (wait_dequeue_bulk-splits capacity q.queue taken' rest' e)
      ]

  pub receive_bulk-items :
      (capacity : ℕ) (q : MessageQueue A) (taken : List A) (rest : MessageQueue A)
      → receive_bulk capacity q ≡ some (taken, rest)
      → taken ++ rest.queue.items ≡ q.queue.items
  receive_bulk-items capacity q taken rest h =
      let (a, b, _) = receive_bulk-splits capacity q taken rest h in
      rw (a, b) (take-append-drop capacity q.queue.items)

  pub receive_bulk-takes :
      (capacity : ℕ) (q : MessageQueue A) (taken : List A) (rest : MessageQueue A)
      → receive_bulk (suc capacity) q ≡ some (taken, rest)
      → 0 < length taken
  receive_bulk-takes capacity q taken rest h =
      let (a, _, some_left) = receive_bulk-splits (suc capacity) q taken rest h in
      rw a (take_some q.queue.items some_left)
    where
      take_some : (items : List A) → items ≢ [] → 0 < length (take (suc capacity) items)
      take_some [] n = absurd (n refl)
      take_some (x ∷ xs) n = omega arith

-- What a thread asks of the queue.
pub data Call {ℓ} (A : Type ℓ) : Type ℓ where
  put : A → Call A
  put_bulk : List A → Call A
  get_bulk : ℕ → Call A

module _ {ℓ} {A : Type ℓ} where
  -- The messages that the calls hand in.
  abbrev pub given : List (Call A) → List A
  given [] = []
  given (put m ∷ calls) = m ∷ given calls
  given (put_bulk ms ∷ calls) = ms ++ given calls
  given (get_bulk capacity ∷ calls) = given calls

  after_get :
      Option (List A × SafeQueue A)
      → SafeQueue A
      → (SafeQueue A → List A × SafeQueue A)
      → List A × SafeQueue A
  after_get none q rest = rest q
  after_get (some (taken, q')) q rest = let (more, q'') = rest q' in (taken ++ more, q'')

  -- A sequence of calls, in the order in which the mutex lets them in: what the dequeues return, and
  -- the queue. A dequeue on an empty queue returns nothing in its turn.
  pub run : List (Call A) → SafeQueue A → List A × SafeQueue A
  unfolding after_get
  run [] q = ([], q)
  run (put m ∷ calls) q = run calls (enqueue m q)
  run (put_bulk ms ∷ calls) q = run calls (enqueue_bulk ms (length ms) q)
  run (get_bulk capacity ∷ calls) q = after_get (wait_dequeue_bulk capacity q) q (run calls)

  -- First in, first out: for every sequence of calls, the messages taken and then those still queued
  -- are the messages queued at first and then those handed in, in order.
  pub run_fifo :
      (calls : List (Call A)) (q : SafeQueue A)
      → (run calls q).0 ++ (run calls q).1.items ≡ q.items ++ given calls
  unfolding run enqueue
  run_fifo [] q = sym (append-nil q.items)
  run_fifo (put m ∷ calls) q =
      run_fifo calls (enqueue m q) ∙ append_assoc q.items (m ∷ []) (given calls)
  run_fifo (put_bulk ms ∷ calls) q =
      run_fifo calls (enqueue_bulk ms (length ms) q)
      ∙ ap (λ t. t ++ given calls)
          (enqueue_bulk-items ms (length ms) q
            ∙ ap (λ t. q.items ++ t) (take-of_le (length ms) ms (omega arith)))
      ∙ append_assoc q.items ms (given calls)
  run_fifo (get_bulk capacity ∷ calls) q = elim (Option-cases (wait_dequeue_bulk capacity q)) [
    | inl e ↦ rw e (run_fifo calls q)
    | inr ((taken, q'), e) ↦
        let (a, b, _) = wait_dequeue_bulk-splits capacity q taken q' e in
        rw e (
          append_assoc taken (run calls q').0 (run calls q').1.items
          ∙ ap (λ t. taken ++ t) (run_fifo calls q')
          ∙ sym (append_assoc taken q'.items (given calls))
          ∙ ap (λ t. t ++ given calls) (ap₂ ◌++◌ a b ∙ take-append-drop capacity q.items))
  ]
