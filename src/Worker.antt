-- ===== src/Worker.antt =====
-- include/utils/parallel_worker.h: a thread held by pointer. A thread is a number, and what is done
-- with threads is a list of calls, in order.
pub mod Destroy
use linux_sensors.Base.{
  ℕ, List, [], ◌∷◌, Bool, true, false, Option, none, some, Outcome, ok, thrown, undefined,
}

-- A std::thread object: the thread, and whether it can be joined or detached.
pub record Thread : Type 0 where
  pub id : ℕ
  pub joinable : Bool

pub data ThreadCall : Type 0 where
  spawned : (id : ℕ) → ThreadCall
  joined : (id : ℕ) → ThreadCall
  detached : (id : ℕ) → ThreadCall

-- `class ParallelWorker`: `_thread`, which may be nullptr.
pub record ParallelWorker : Type 0 where
  pub thread : Option Thread

unfoldable pub new_parallel_worker : ParallelWorker
new_parallel_worker = record { thread = none }

-- `start`: a new thread object; one that is there stays where it is, and is lost.
unfoldable pub start : ℕ → ParallelWorker → ParallelWorker × List ThreadCall
start id w = (record { thread = some (record { id = id; joinable = true }) }, spawned id ∷ [])

-- `if (_thread->joinable()) _thread->join();`
unfoldable pub join_thread : Thread → ParallelWorker × List ThreadCall
join_thread t = elim t.joinable [
  | true ↦ (record { thread = some (record t { joinable = false }) }, joined t.id ∷ [])
  | false ↦ (record { thread = some t }, [])
]

-- `join`, which reads through `_thread`.
unfoldable pub join : ParallelWorker → Outcome (ParallelWorker × List ThreadCall)
unfolding join_thread
join w = elim w.thread [ none ↦ undefined | some t ↦ ok (join_thread t) ]

-- std::thread::detach, which throws std::system_error if the thread is not joinable.
unfoldable pub detach : Thread → Outcome (List ThreadCall)
detach t = elim t.joinable [ true ↦ ok (detached t.id ∷ []) | false ↦ thrown ]

-- The destructor. It is noexcept, so `thrown` is the end of the program by std::terminate.
unfoldable pub destroy : ParallelWorker → Outcome (List ThreadCall)
unfolding detach
destroy w = elim w.thread [ none ↦ ok [] | some t ↦ detach t ]
