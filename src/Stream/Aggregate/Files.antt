-- ===== src/Stream/Aggregate/Files.antt =====
-- Which files include/stream/file_aggr_stream.h writes.
use linux_sensors.Base.{ℕ, ◌≡◌, List, [], ◌∷◌, Bytes, refl, leb, length, Bool-cases, inl, inr}
use linux_sensors.Trace.{SysParamsRecord}
use linux_sensors.Stream.Aggregate.{
  Traces, FileAggr, new_file_aggr, indexed_name, collect_all, print_all, aggr_dispatch,
}

-- Packs dispatched one after the other, each at its time.
unfoldable pub dispatches :
    (Traces → Traces) → List (ℕ × List SysParamsRecord) → FileAggr → FileAggr
dispatches walk [] s = s
dispatches walk ((now, records) ∷ later) s =
    dispatches walk later (aggr_dispatch walk now records s)

-- The stream writes to its first file, and has closed none.
record IsFirst (name : Bytes) (s : FileAggr) : Type 0 where
  index : s.file_index ≡ 11
  opened : s.open_name ≡ indexed_name name 10
  none_closed : s.closed ≡ []

module _ (name : Bytes) where
  collect_all-IsFirst :
      (records : List SysParamsRecord) (s : FileAggr)
      → IsFirst name s
      → IsFirst name (collect_all records s)
  unfolding collect_all
  collect_all-IsFirst [] s k = k
  collect_all-IsFirst (r ∷ records) s k =
      collect_all-IsFirst records _
        (record { index = k.index; opened = k.opened; none_closed = k.none_closed })

  print_all-IsFirst :
      (walk : Traces → Traces) (now : ℕ) (s : FileAggr)
      → IsFirst name s
      → IsFirst name (print_all walk now s)
  unfolding print_all
  print_all-IsFirst walk now s k =
      rw k.index (record { index = refl; opened = k.opened; none_closed = k.none_closed })

  aggr_dispatch-IsFirst :
      (walk : Traces → Traces) (now : ℕ) (records : List SysParamsRecord) (s : FileAggr)
      → IsFirst name s
      → IsFirst name (aggr_dispatch walk now records s)
  unfolding aggr_dispatch
  aggr_dispatch-IsFirst walk now records s k =
      let c = collect_all-IsFirst records s k in
      elim (Bool-cases (leb (collect_all records s).size (length (collect_all records s).traces))) [
        | inl e ↦ rw e (print_all-IsFirst walk now (collect_all records s) c)
        | inr e ↦ rw e c
      ]

  dispatches-IsFirst :
      (walk : Traces → Traces) (ds : List (ℕ × List SysParamsRecord)) (s : FileAggr)
      → IsFirst name s
      → IsFirst name (dispatches walk ds s)
  unfolding dispatches
  dispatches-IsFirst walk [] s k = k
  dispatches-IsFirst walk ((now, records) ∷ ds) s k =
      dispatches-IsFirst walk ds _ (aggr_dispatch-IsFirst walk now records s k)

-- Whatever is dispatched, and in whatever order the map is walked, the stream never leaves its first
-- file: the index is 11 behind the constructor, and is counted up only where it is a multiple of 10.
pub one_file :
    (name : Bytes) (size : ℕ) (walk : Traces → Traces) (ds : List (ℕ × List SysParamsRecord))
    → ((dispatches walk ds (new_file_aggr name size)).open_name ≡ indexed_name name 10)
      × ((dispatches walk ds (new_file_aggr name size)).closed ≡ [])
one_file name size walk ds =
    let first : IsFirst name (new_file_aggr name size) =
      unfold new_file_aggr in record { index = refl; opened = refl; none_closed = refl } in
    let k = dispatches-IsFirst name walk ds (new_file_aggr name size) first in
    (k.opened, k.none_closed)
