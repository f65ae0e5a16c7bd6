-- ===== src/Trace/References.antt =====
-- References and ranges that lie inside their text, and those that do not.
use linux_sensors.Base.{
  ℕ, ◌+◌, ◌-◌, ◌^◌, ◌≤◌, ◌<◌, ◌≡◌, Bytes, ok, thrown, undefined, arith, length, slice,
}
use linux_sensors.Text.{string_ref}
use linux_sensors.Trace.{between}

pub string_ref-ok :
    (text : Bytes) (i n : ℕ)
    → n < 2 ^ 63
    → i + n ≤ length text
    → string_ref text i n ≡ ok (record { start = i; size = n; buffer = slice text i n })
unfolding string_ref
string_ref-ok text i n small h = ground arith

pub string_ref_wraps : (text : Bytes) (i n : ℕ) → 2 ^ 63 ≤ n → string_ref text i n ≡ thrown
unfolding string_ref
string_ref_wraps text i n h = ground arith

pub string_ref_outside :
    (text : Bytes) (i n : ℕ) → n < 2 ^ 63 → length text < i + n → string_ref text i n ≡ undefined
unfolding string_ref
string_ref_outside text i n h k = ground arith

pub between-ok :
    (text : Bytes) (i j : ℕ)
    → i ≤ j
    → j ≤ length text
    → between text i j ≡ ok (slice text i (j - i))
unfolding between
between-ok text i j h k = ground arith
