-- ===== src/Sensor/Watch/Rates.antt =====
-- What the rates of a watch are worth: the seconds are counted without their fraction.
use linux_sensors.Base.{
  ℕ, zero, suc, ◌+◌, ◌-◌, ◌*◌, ◌/◌, ◌%◌, ◌^◌, ◌<◌, ◌≤◌, ◌≡◌, ◌⊎◌, inl, inr, refl, ◌==◌, false,
  arith,
}
use native.Mathlib.Nat.{mul-le-mul_left, mul_left_comm, div-mul-le_self, lt-div-mul-add}
use linux_sensors.Base.Int.{pos, sub_ℕ}
use linux_sensors.Sensor.Watch.{EventsWatch, micros_of, seconds_of, no_seconds, rate, now, reset}

-- The whole seconds of a number of nanoseconds.
abbrev pub whole_seconds : ℕ → ℕ
whole_seconds elapsed = elapsed / 1000 / 1000000

seconds_between :
    (earlier later : ℕ)
    → earlier ≤ later
    → seconds_of (micros_of (sub_ℕ later earlier)) ≡ pos (whole_seconds (later - earlier))
unfolding seconds_of micros_of
seconds_between earlier later h = ground arith

-- A rate for `s` whole seconds, against the time that has passed.
module _ (events elapsed s r : ℕ) (some_second : 0 < s) (low : s * 1000000000 ≤ elapsed)
    (high : elapsed < (s + 1) * 1000000000) where
  rate_above : r * s ≤ events → r * elapsed ≤ 2000000000 * events
  rate_above h =
      let twice : elapsed ≤ 2000000000 * s = omega (arith, some_second, high) in
      omega (arith, h, mul-le-mul_left r twice, mul_left_comm r 2000000000 s)

  rate_below : events < (r + 1) * s → 1000000000 * events < (r + 1) * elapsed
  rate_below h =
      let once : 1000000000 * s ≤ elapsed = omega (arith, low) in
      omega (arith, h, mul-le-mul_left (r + 1) once, mul_left_comm (r + 1) 1000000000 s)

-- What `now` returns and leaves, for a time in nanoseconds.
abbrev pub IsRate : ℕ → ℕ → EventsWatch → ℕ × EventsWatch → Type 0
IsRate elapsed reset_clock w (r, w') =
    ((elapsed < 1000000000) × (r ≡ 0) × (w' ≡ w))
    ⊎ ((1000000000 ≤ elapsed)
        × (r * elapsed ≤ 2000000000 * w.events)
        × (1000000000 * w.events < (r + 1) * elapsed)
        × (w' ≡ record w { events = 0; start_p = reset_clock }))

now_seconds :
    (clock reset_clock : ℕ) (w : EventsWatch) (s : ℕ)
    → w.start_p ≤ clock
    → whole_seconds (clock - w.start_p) ≡ suc s
    → suc s < 2 ^ 64
    → now clock reset_clock w ≡ (w.events / suc s, record w { events = 0; start_p = reset_clock })
unfolding now rate no_seconds reset
now_seconds clock reset_clock w s h same fits =
    let some_second : (suc s == 0) ≡ false = ground arith in
    let small : suc s % 2 ^ 64 ≡ suc s = omega (arith, fits) in
    rw (seconds_between w.start_p clock h, same, some_second, small) refl

now_early :
    (clock reset_clock : ℕ) (w : EventsWatch)
    → w.start_p ≤ clock
    → whole_seconds (clock - w.start_p) ≡ 0
    → now clock reset_clock w ≡ (0, w)
unfolding now no_seconds
now_early clock reset_clock w h same = rw (seconds_between w.start_p clock h, same) refl

-- Unless the clock went back, or 2 ^ 63 nanoseconds or more have passed: in the first second since
-- the last reset `now` returns 0 and leaves the watch; then what it returns lies between the events
-- in a second less 1 and twice the events in a second, and the count starts anew.
pub now-IsRate :
    (clock reset_clock : ℕ) (w : EventsWatch)
    → w.start_p ≤ clock
    → clock - w.start_p < 2 ^ 63
    → IsRate (clock - w.start_p) reset_clock w (now clock reset_clock w)
now-IsRate clock reset_clock w h fits = go (whole_seconds (clock - w.start_p)) refl
  where
    go :
        (s : ℕ)
        → whole_seconds (clock - w.start_p) ≡ s
        → IsRate (clock - w.start_p) reset_clock w (now clock reset_clock w)
    go zero e = rw (now_early clock reset_clock w h e) (inl (omega (arith, e), refl, refl))
    go (suc s) e = rw (now_seconds clock reset_clock w s h e (omega (arith, e, fits))) (
        inr (
          omega (arith, e),
          rate_above w.events (clock - w.start_p) (suc s) (w.events / suc s) (omega arith)
              (omega (arith, e)) (omega (arith, e)) (div-mul-le_self w.events (suc s)),
          rate_below w.events (clock - w.start_p) (suc s) (w.events / suc s) (omega arith)
              (omega (arith, e)) (omega (arith, e))
              (omega (arith, lt-div-mul-add {a = w.events} {b = suc s} (omega arith))),
          refl,
        ))
