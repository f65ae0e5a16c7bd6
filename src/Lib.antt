-- ===== src/Lib.antt =====
-- A model of the sensor of Linux system calls: it reads the kernel's trace, cuts it into lines,
-- makes a record of each, packs the records, and hands the packs to a stream.
--
-- A line of the trace goes through three threads (include/sensor/multithreaded_sensor.h). The reader
-- reads 1024 bytes at a time, and puts bulks of lines into a queue. The worker parses the lines
-- and puts packs of records into a second queue. The sender dispatches the packs to the stream,
-- and raises the flag `finished` at the end. The main thread serves the status on a socket.
--
--   Text      include/utils/string_ref.h and the splitters of include/utils/utils.h
--   Number    fast_atoi, str_to_short and the decimal print
--   Trace     include/sensor/trace: the records, and their columns in a line
--   Encoding  include/utils/encoding.h: base64
--   Queue     include/queue/simple/simple_queue.h and include/queue/message_queue.h
--   Sensor    Aggregator, Watch: data_aggregator.h, events_measure.h; Reader: `_read_stream`;
--             System: the three threads as a step relation; Control: base_sensor.h; Lifecycle: the
--             sensor as an object; Run, Status: `run` and the reports; Run.Whole: `run` and `join`
--             beside the three threads; Single: single_sensor.h (all of include/sensor)
--   Worker    include/utils/parallel_worker.h: a thread held by pointer
--   Os        the file helpers and get_pids of include/utils/utils.h
--   Socket    include/socket
--   Stream    include/stream; Interface: base_stream.h; Aggregate: memory_stream.h and
--             file_aggr_stream.h; Packet: socket_stream.h
--   Daemon    include/utils/linux_daemon.h
--   Program   main.cpp
--   Base      lists, tests, integers and outcomes that the others share
--
-- A string is a list of bytes, an iterator an offset into its string, a pointer to a message an
-- option whose `none` is nullptr. Code that may throw or leave the defined behaviour of C++
-- returns an Outcome. What the operating system answers is an argument, and what is asked of it a
-- list. In Sensor.System a step is one operation of a queue, which its mutex makes atomic, or the
-- work of a thread between two of them; a run is any sequence of steps. An exception in the worker
-- ends the program, so it has no step. A dispatch of the sender may throw in any state: its handler
-- goes back to the queue and drops the batch, which Sensor.System.Spares keeps account of. In
-- Sensor.Run.Whole a fourth thread runs `run`; a `join` is a step that its thread must have ended for.
--
-- Fuel: the splitters find at most one delimiter for each character, and get two rounds more. The
-- loop of the reader takes one round for each 1024 bytes and one more. get_pids
-- takes a character or more in each round. A number of 64 bits has at most 20 digits.
--
-- A line has a shape of the trace if it is too short for the collector (60 characters), or has the
-- four columns that the collector reads (65 characters) and no space behind the name.
--
-- Not modelled: the libraries that the repository has copies of (include/queue/moodycamel,
-- include/utils/json.hpp, format.h, gzstream.h), of which the formatter is an argument of the
-- streams; `_send_stream` of single_sensor.h, which does not instantiate; memory, and with it that a
-- short string which is moved changes its address, and std::bad_alloc outside `get_status` and
-- dispatch. trace_pipe is a live stream whose reads wait for the kernel; here the trace is a finite
-- text that is read until its end, and a read does not wait. The counters of the queue's loops are
-- `int`; the sensor moves 512 messages at most at a time, so they are plain numbers here.
mod Checks
pub mod Base
pub mod Text
pub mod Number
pub mod Trace
pub mod Encoding
pub mod Queue
pub mod Sensor
pub mod Worker
pub mod Os
pub mod Socket
pub mod Stream
pub mod Daemon
pub mod Program
