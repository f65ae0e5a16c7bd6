-- ===== src/Sensor/Lifecycle.antt =====
-- The object `multithreaded_sensor` of include/sensor/multithreaded_sensor.h over its base class of
-- include/sensor/base_sensor.h: how it is built, started, joined and destroyed. The queues, the
-- watches, the aggregator and the socket are in the modules of their own.
use linux_sensors.Base.{
  ℕ, ◌+◌, List, ◌++◌, Bool, true, false, Option, none, some, Outcome, ok, undefined, ◌>>=◌,
  if◌then◌else◌,
}
use linux_sensors.Worker
use linux_sensors.Worker.{ParallelWorker, ThreadCall, new_parallel_worker}

-- What `_stream` points to, of the classes of include/stream. Their base class in base_stream.h is
-- abstract and has no virtual destructor.
pub data StreamClass : Type 0 where
  console_stream dumy_stream file_stream file_aggr_stream memory_stream socket_stream : StreamClass

-- The members of `BaseSensor`. `finished` has no value before `start`.
pub record BaseSensor : Type 0 where
  pub stream : Option StreamClass
  pub finished : Option Bool

unfoldable pub new_base_sensor : Option StreamClass → BaseSensor
new_base_sensor stream = record { stream = stream; finished = none }

-- `delete _stream`: nothing on nullptr; else a destructor that is not virtual is called through a
-- pointer to the base class of the object.
unfoldable pub delete_stream : BaseSensor → Outcome BaseSensor
delete_stream b = elim b.stream [ none ↦ ok b | some c ↦ undefined ]

-- The base class, the three workers, and whether SIGPIPE is ignored.
pub record MultithreadedSensor : Type 0 where
  pub base : BaseSensor
  pub reader : ParallelWorker
  pub worker : ParallelWorker
  pub sender : ParallelWorker
  pub ignores_sigpipe : Bool

unfoldable pub new_sensor : Option StreamClass → MultithreadedSensor
unfolding new_base_sensor new_parallel_worker
new_sensor stream = record {
  base = new_base_sensor stream;
  reader = new_parallel_worker;
  worker = new_parallel_worker;
  sender = new_parallel_worker;
  ignores_sigpipe = false;
}

-- `disable_seg_pipe`: sigaction with SIG_IGN.
unfoldable pub disable_seg_pipe : MultithreadedSensor → MultithreadedSensor
disable_seg_pipe s = record s { ignores_sigpipe = true }

-- `start`: the threads in the order sender, worker, reader, numbered from `id`.
unfoldable pub start : ℕ → MultithreadedSensor → MultithreadedSensor × List ThreadCall
unfolding disable_seg_pipe Worker.start
start id s =
    let s' = disable_seg_pipe (record s { base = record s.base { finished = some false } }) in
    let (sender, first) = Worker.start id s'.sender in
    let (worker, second) = Worker.start (id + 1) s'.worker in
    let (reader, third) = Worker.start (id + 2) s'.reader in
    (record s' { sender = sender; worker = worker; reader = reader }, first ++ second ++ third)

-- `stop`, which does nothing.
unfoldable pub stop : MultithreadedSensor → MultithreadedSensor
stop s = s

-- `join`: reader, sender, worker.
unfoldable pub join : MultithreadedSensor → Outcome (MultithreadedSensor × List ThreadCall)
unfolding Worker.join
join s = do
  (reader, first) ← Worker.join s.reader
  (sender, second) ← Worker.join s.sender
  (worker, third) ← Worker.join s.worker
  ok (record s { reader = reader; sender = sender; worker = worker }, first ++ second ++ third)

-- The threads' part of `run`: `start`, and `join` where it does not log.
unfoldable pub run :
    Bool → ℕ → MultithreadedSensor → Outcome (MultithreadedSensor × List ThreadCall)
unfolding start join stop
run logging id s =
    let (s', started) = start id s in
    if logging
    then ok (stop s', started)
    else (do (s'', waited) ← join s'; ok (stop s'', started ++ waited))

-- The destructor: the members in the reverse of their order, then the base class.
unfoldable pub destroy : MultithreadedSensor → Outcome (List ThreadCall)
unfolding Worker.destroy delete_stream
destroy s = do
  sender ← Worker.destroy s.sender
  worker ← Worker.destroy s.worker
  reader ← Worker.destroy s.reader
  base ← delete_stream s.base
  ok (sender ++ worker ++ reader)
