-- ===== src/Sensor/System/Steps.antt =====
-- Each step of a thread keeps the invariant, but a throw of `dispatch`, which is in Spares.
mod Phases
mod OfReader
mod OfWorker
mod OfFlush
mod OfSender
pub use Phases.{worker_over-done, collected_lem, send_bulk-pointers}
pub use OfReader.*
pub use OfWorker.*
pub use OfFlush.*
pub use OfSender.*
