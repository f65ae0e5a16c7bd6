-- ===== src/Sensor/Watch.antt =====
-- include/sensor/events_measure.h: counters and rates. A time point is a count of nanoseconds, and
-- the clock's reading is an argument; `size_t` has 64 bits.
pub mod Rates
use linux_sensors.Base.{ℕ, suc, ◌+◌, ◌/◌, ◌%◌, ◌^◌, Bool, true, false, ◌==◌, if◌then◌else◌}
use linux_sensors.Base.Int.{ℤ, pos, negsuc, sub_ℕ, to_unsigned}

pub record EventsWatch : Type 0 where
  pub start_p : ℕ
  pub start_all : ℕ
  pub stop_p : ℕ
  pub events : ℕ
  pub total_events : ℕ
  pub finished : Bool

unfoldable pub new_watch : EventsWatch
new_watch = record {
  start_p = 0;
  start_all = 0;
  stop_p = 0;
  events = 0;
  total_events = 0;
  finished = false;
}

unfoldable pub start : ℕ → EventsWatch → EventsWatch
start clock w = record w { start_p = clock; start_all = clock }

-- `events` is an `int` there, added to a size_t.
unfoldable pub add : ℤ → EventsWatch → EventsWatch
add events w = record w {
  events = (w.events + to_unsigned 64 events) % 2 ^ 64;
  total_events = (w.total_events + to_unsigned 64 events) % 2 ^ 64;
}

unfoldable pub stop : ℕ → EventsWatch → EventsWatch
stop clock w = record w { stop_p = clock; finished = true }

unfoldable pub reset : ℕ → EventsWatch → EventsWatch
reset clock w = record w { events = 0; start_p = clock }

unfoldable pub is_finished : EventsWatch → Bool
is_finished w = w.finished

-- `duration_cast<microseconds>(later - earlier)`, towards 0.
unfoldable pub micros_of : ℤ → ℤ
micros_of (pos n) = pos (n / 1000)
micros_of (negsuc n) = sub_ℕ 0 (suc n / 1000)

-- `.count() / 1000000`
unfoldable pub seconds_of : ℤ → ℤ
seconds_of (pos n) = pos (n / 1000000)
seconds_of (negsuc n) = sub_ℕ 0 (suc n / 1000000)

-- `sec == 0`
unfoldable pub no_seconds : ℤ → Bool
no_seconds (pos n) = n == 0
no_seconds (negsuc n) = false

-- `events / sec`, with `sec` converted to size_t, and 0 if no second has passed.
unfoldable pub rate : ℕ → ℤ → ℕ
unfolding no_seconds
rate events sec = if no_seconds sec then 0 else events / to_unsigned 64 sec

-- `now`: the rate since the last reset, which it resets.
unfoldable pub now : ℕ → ℕ → EventsWatch → ℕ × EventsWatch
unfolding micros_of seconds_of rate reset
now clock reset_clock w =
    let sec = seconds_of (micros_of (sub_ℕ clock w.start_p)) in
    if no_seconds sec then (0, w) else (rate w.events sec, reset reset_clock w)

unfoldable pub total : EventsWatch → ℕ
unfolding micros_of seconds_of rate
total w = rate w.total_events (seconds_of (micros_of (sub_ℕ w.stop_p w.start_all)))

unfoldable pub microsec : EventsWatch → ℤ
unfolding micros_of
microsec w = micros_of (sub_ℕ w.stop_p w.start_all)

unfoldable pub all_events : EventsWatch → ℕ
all_events w = w.total_events
