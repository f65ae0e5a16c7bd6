-- ===== src/Queue.antt =====
-- include/queue/simple/simple_queue.h and include/queue/message_queue.h. Each operation holds the
-- mutex from its first line to its last, so it is one step. `none` is a call that waits.
pub mod Order
use linux_sensors.Base.{ℕ, zero, suc, List, [], ◌∷◌, ◌++◌, Option, none, some, length}

-- `class SafeQueue`: the messages, the oldest first.
pub record SafeQueue {ℓ} (A : Type ℓ) : Type ℓ where
  pub items : List A

module _ {ℓ} {A : Type ℓ} where
  unfoldable pub empty_queue : SafeQueue A
  empty_queue = record { items = [] }

  unfoldable pub enqueue : A → SafeQueue A → SafeQueue A
  enqueue t q = record { items = q.items ++ t ∷ [] }

  -- The first message, once there is one.
  unfoldable pub front : List A → Option (A × SafeQueue A)
  front [] = none
  front (val ∷ rest) = some (val, record { items = rest })

  unfoldable pub dequeue : SafeQueue A → Option (A × SafeQueue A)
  unfolding front
  dequeue q = front q.items

  -- The loop over the array `messages`. Its counter is an `int`, as is that of `pop_bulk`; the sensor
  -- moves 512 messages at most at a time.
  unfoldable pub enqueue_bulk : List A → ℕ → SafeQueue A → SafeQueue A
  unfolding enqueue
  enqueue_bulk messages zero q = q
  enqueue_bulk [] (suc size) q = q
  enqueue_bulk (m ∷ messages) (suc size) q = enqueue_bulk messages size (enqueue m q)

  -- `for (i = 0; i < capacity && !q.empty(); i++)`: what is written to `message`, and the rest.
  unfoldable pub pop_bulk : ℕ → List A → List A × SafeQueue A
  pop_bulk zero q = ([], record { items = q })
  pop_bulk (suc capacity) [] = ([], record { items = [] })
  pop_bulk (suc capacity) (x ∷ q) = let (taken, rest) = pop_bulk capacity q in (x ∷ taken, rest)

  unfoldable pub wait_bulk : ℕ → List A → Option (List A × SafeQueue A)
  unfolding pop_bulk
  wait_bulk capacity [] = none
  wait_bulk capacity (x ∷ q) = some (pop_bulk capacity (x ∷ q))

  unfoldable pub wait_dequeue_bulk : ℕ → SafeQueue A → Option (List A × SafeQueue A)
  unfolding wait_bulk
  wait_dequeue_bulk capacity q = wait_bulk capacity q.items

  unfoldable pub size_approx : SafeQueue A → ℕ
  size_approx q = length q.items

-- `class message_queue`, which hands each call on to its `SafeQueue`.
pub record MessageQueue {ℓ} (A : Type ℓ) : Type ℓ where
  pub queue : SafeQueue A

module _ {ℓ} {A : Type ℓ} where
  unfoldable pub send : A → MessageQueue A → MessageQueue A
  unfolding enqueue
  send message q = record { queue = enqueue message q.queue }

  unfoldable pub send_bulk : List A → ℕ → MessageQueue A → MessageQueue A
  unfolding enqueue_bulk
  send_bulk messages size q = record { queue = enqueue_bulk messages size q.queue }

  unfoldable pub receive_bulk : ℕ → MessageQueue A → Option (List A × MessageQueue A)
  unfolding wait_dequeue_bulk
  receive_bulk capacity q = elim (wait_dequeue_bulk capacity q.queue) [
    | none ↦ none
    | some (taken, rest) ↦ some (taken, record { queue = rest })
  ]

  unfoldable pub queue_size : MessageQueue A → ℕ
  unfolding size_approx
  queue_size q = size_approx q.queue
