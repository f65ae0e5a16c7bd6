-- ===== src/Sensor/Status.antt =====
-- `get_status` and `get_summary` of include/sensor/multithreaded_sensor.h, and the number format of
-- include/utils/comma_numpunct.h.
pub mod Grouping
use linux_sensors.Base.{
  ℕ, zero, suc, ◌+◌, ◌-◌, ◌/◌, ◌%◌, [], ◌∷◌, ◌++◌, Bytes, codes, ltb, if◌then◌else◌, length,
  replicate,
}
use linux_sensors.Os.{Effect, printed}
use linux_sensors.Sensor.Watch
use linux_sensors.Sensor.Watch.{EventsWatch}

abbrev pub thousands_sep : ℕ
thousands_sep = b','

-- One digit is put before a number of which `done` digits stand: `do_grouping` asks for groups of
-- three, counted from the right.
unfoldable pub put_digit : ℕ → ℕ → Bytes → Bytes
put_digit done d rest =
    if ltb 0 done
    then (elim (done % 3) [ zero ↦ d ∷ thousands_sep ∷ rest | suc k ↦ d ∷ rest ])
    else d ∷ rest

unfoldable pub grouped_digits : ℕ → ℕ → ℕ → Bytes → Bytes
unfolding put_digit
grouped_digits zero n done rest = rest
grouped_digits (suc fuel) n done rest =
    let more = grouped_digits fuel (n / 10) (done + 1) (put_digit done (48 + n % 10) rest) in
    if ltb n 10 then put_digit done (48 + n) rest else more

-- A size_t printed in the locale with `comma_numpunct`; it has at most 20 digits.
unfoldable pub comma_number : ℕ → Bytes
unfolding grouped_digits
comma_number n = grouped_digits 20 n 0 []

-- `setw(width) << left`: spaces behind, up to the width.
unfoldable pub pad_right : ℕ → Bytes → Bytes
pad_right width text = text ++ replicate (width - length text) b' '

-- One line of a report.
unfoldable pub report_line : Bytes → ℕ → Bytes → Bytes
unfolding comma_number pad_right
report_line label value unit =
    pad_right 25 label ++ codes "= " ++ pad_right 15 (comma_number value) ++ unit

-- `get_status`, at a reading of the clock: each `now` resets its watch.
pub record Watches : Type 0 where
  pub reader : EventsWatch
  pub worker : EventsWatch
  pub sender : EventsWatch

-- `std::cout<<status<<"\n"` prints what the stream converts to, which is an argument.
unfoldable pub status_shown : Bytes → Effect
status_shown shown = printed (shown ++ codes "\n")

unfoldable pub get_status : ℕ → ℕ → ℕ → Bytes → Watches → Bytes × Watches × Effect
unfolding report_line Watch.now status_shown
get_status clock stream_size result_size shown w =
    let (read, reader) = Watch.now clock clock w.reader in
    let (processed, worker) = Watch.now clock clock w.worker in
    let (sent, sender) = Watch.now clock clock w.sender in
    (
      report_line (codes "Read Events ") read (codes " events/sec\n")
          ++ report_line (codes "Process Events ") processed (codes " events/sec\n")
          ++ report_line (codes "Send Events ") sent (codes " events/sec\n")
          ++ report_line (codes "Stream Queue size ") stream_size (codes "\n")
          ++ report_line (codes "Result Queue size ") result_size (codes "\n")
          ++ codes "\n",
      record { reader = reader; worker = worker; sender = sender },
      status_shown shown,
    )

unfoldable pub get_summary : Watches → Bytes
unfolding report_line Watch.all_events Watch.total
get_summary w =
    report_line (codes "All Events ") (Watch.all_events w.reader) (codes " events\n")
    ++ report_line (codes "Read Events ") (Watch.total w.reader) (codes " events/sec\n")
    ++ report_line (codes "Process Events ") (Watch.total w.worker) (codes " events/sec\n")
    ++ report_line (codes "Send Events ") (Watch.total w.sender) (codes " events/sec\n\n")
