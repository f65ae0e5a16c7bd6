-- ===== src/Sensor/System/State.antt =====
-- The state that the threads of include/sensor/multithreaded_sensor.h share, and where each stands.
use linux_sensors.Base.{List, Bool, Option}
use linux_sensors.Trace.{SysParamsRecord}
use linux_sensors.Queue.{MessageQueue}
use linux_sensors.Sensor.Aggregator.{DataAggregator}
use linux_sensors.Sensor.Watch.{EventsWatch}
use linux_sensors.Sensor.Reader.{EventsBulk, Reader}

abbrev pub Pack : Type 0
Pack = List SysParamsRecord

-- A message is a pointer, and `none` is nullptr, which ends the stream.
abbrev pub BulkMessage : Type 0
BulkMessage = Option EventsBulk

abbrev pub PackMessage : Type 0
PackMessage = Option Pack

-- Where `_read_stream` stands: in its loop, behind it, and returned.
pub data ReaderPhase : Type 0 where
  reading : Reader → ReaderPhase
  ending : Reader → ReaderPhase
  read_done : ReaderPhase

-- Where `_process_traces` stands: at `wait_dequeue_bulk`; in the `for` loop, with the messages left;
-- before the test of `ready`; after a nullptr, at its three calls of `enqueue`; returned.
pub data WorkerPhase : Type 0 where
  worker_waiting : WorkerPhase
  working : List BulkMessage → WorkerPhase
  packing : List BulkMessage → WorkerPhase
  flushing : WorkerPhase
  telling_workers : WorkerPhase
  telling_sender : WorkerPhase
  work_done : WorkerPhase

-- Where `_send_stream` stands: at `wait_dequeue_bulk`; in the `for` loop; returned.
pub data SenderPhase : Type 0 where
  sender_waiting : SenderPhase
  sending : List PackMessage → SenderPhase
  send_done : SenderPhase

-- The members that the threads share, and the phase of each. `dispatched` is what the stream was
-- handed, `finished` the flag of the base class; `failed` records that a dispatch threw.
pub record System : Type 0 where
  pub reader : ReaderPhase
  pub stream_queue : MessageQueue BulkMessage
  pub worker : WorkerPhase
  pub aggregator : DataAggregator SysParamsRecord
  pub worker_watch : EventsWatch
  pub result_queue : MessageQueue PackMessage
  pub sender : SenderPhase
  pub sender_watch : EventsWatch
  pub dispatched : List Pack
  pub finished : Bool
  pub failed : Bool
