-- ===== src/Worker/Destroy.antt =====
-- How a ParallelWorker that was started ends.
use linux_sensors.Base.{ℕ, ◌≡◌, [], ◌∷◌, refl, ok, thrown, ◌>>=◌}
use linux_sensors.Worker.{ParallelWorker, detached, start, join, destroy}

-- A worker that was started and joined cannot be destroyed: `join` returns, and the destructor throws,
-- which ends the program. One that was started and not joined is detached.
pub start-destroy :
    (id : ℕ) (w : ParallelWorker)
    → ((join (start id w).0 >>= λ p. destroy p.0) ≡ thrown)
      × (destroy (start id w).0 ≡ ok (detached id ∷ []))
unfolding start join destroy
start-destroy id w = (refl, refl)
