-- ===== src/Stream/Aggregate.antt =====
-- include/stream/memory_stream.h and file_aggr_stream.h: the system calls of each process. The maps
-- are association lists; the order in which std::unordered_map is walked is the argument `walk`.
pub mod ByProcess
pub mod Files
use linux_sensors.Base.{
  ℕ, ◌+◌, ◌%◌, List, [], ◌∷◌, ◌++◌, Bytes, codes, Bool, false, Option, none, some, leb, ◌==◌,
  if◌then◌else◌, length,
}
use linux_sensors.Base.Int.{ℤ, pos, negsuc}
use linux_sensors.Number.{to_string}
use linux_sensors.Trace.{SysParamsRecord}

unfoldable pub int_eq : ℤ → ℤ → Bool
int_eq (pos m) (pos n) = m == n
int_eq (pos m) (negsuc n) = false
int_eq (negsuc m) (pos n) = false
int_eq (negsuc m) (negsuc n) = m == n

abbrev pub Traces : Type 0
Traces = List (ℤ × List ℤ)

abbrev pub Names : Type 0
Names = List (ℤ × Bytes)

module _ {ℓ} {V : Type ℓ} where
  unfoldable pub find : ℤ → List (ℤ × V) → Option V
  find k [] = none
  find k ((j, v) ∷ m) = if int_eq j k then some v else find k m

-- `it->second.push_back(syscall)` where the process is in the map, and a new entry where not.
unfoldable pub add_call : ℤ → ℤ → Traces → Traces
add_call pid syscall [] = (pid, syscall ∷ []) ∷ []
add_call pid syscall ((j, calls) ∷ traces) =
    if int_eq j pid
    then (j, calls ++ syscall ∷ []) ∷ traces
    else (j, calls) ∷ add_call pid syscall traces

-- `pnames.emplace(pid, name)` where the process has no name yet.
unfoldable pub add_name : ℤ → Bytes → Names → Names
add_name pid name [] = (pid, name) ∷ []
add_name pid name ((j, old) ∷ names) =
    if int_eq j pid then (j, old) ∷ names else (j, old) ∷ add_name pid name names

-- `memory_stream::dispatch`
unfoldable pub memory_dispatch : List SysParamsRecord → Traces → Traces
memory_dispatch [] traces = traces
memory_dispatch (r ∷ records) traces =
    memory_dispatch records (add_call r.base.pid r.base.syscall traces)

-- `class file_aggr_stream`: the file that is open and what was written to it, the files that were
-- closed, and the members.
pub record FileAggr : Type 0 where
  pub open_name : Bytes
  pub written : Bytes
  pub closed : List (Bytes × Bytes)
  pub file_name : Bytes
  pub traces : Traces
  pub names : Names
  pub size : ℕ
  pub file_index : ℕ

-- `_file_name + "_" + std::to_string(index) + ".gz"`
unfoldable pub indexed_name : Bytes → ℕ → Bytes
indexed_name name index = ((name ++ codes "_") ++ to_string (pos index)) ++ codes ".gz"

-- The constructor of `file_aggr_stream`; the index is used and then counted up.
unfoldable pub new_file_aggr : Bytes → ℕ → FileAggr
unfolding indexed_name
new_file_aggr name size = record {
  open_name = indexed_name name 10;
  written = [];
  closed = [];
  file_name = name;
  traces = [];
  names = [];
  size = size;
  file_index = 11;
}

-- The system calls of one process, each with a comma behind it.
unfoldable pub calls_text : List ℤ → Bytes
calls_text [] = []
calls_text (c ∷ calls) = (to_string c ++ codes ",") ++ calls_text calls

-- `it2->second`, or nothing where the process has no name.
abbrev pub name_or_empty : Option Bytes → Bytes
name_or_empty none = []
name_or_empty (some name) = name

unfoldable pub entries_text : Names → Traces → Bytes
unfolding calls_text
entries_text names [] = []
entries_text names ((pid, calls) ∷ traces) =
    (name_or_empty (find pid names)
      ++ codes " == "
      ++ to_string pid
      ++ codes " ==> "
      ++ calls_text calls
      ++ codes "\n")
    ++ entries_text names traces

-- `print_all`, at `now` milliseconds.
unfoldable pub print_all : (Traces → Traces) → ℕ → FileAggr → FileAggr
unfolding entries_text indexed_name
print_all walk now s =
    let head =
      codes "processes = "
      ++ to_string (pos (length s.traces))
      ++ codes " timestamp = "
      ++ to_string (pos now)
      ++ codes "\n" in
    let written = (s.written ++ head) ++ entries_text s.names (walk s.traces) in
    let cleared = record s { written = written; traces = []; names = [] } in
    if s.file_index % 10 == 0
    then record cleared {
      open_name = indexed_name s.file_name s.file_index;
      written = [];
      closed = s.closed ++ (s.open_name, written) ∷ [];
      file_index = s.file_index + 1;
    }
    else cleared

-- The loop of `file_aggr_stream::dispatch`.
unfoldable pub collect_all : List SysParamsRecord → FileAggr → FileAggr
unfolding add_call add_name
collect_all [] s = s
collect_all (r ∷ records) s = collect_all records (record s {
  traces = add_call r.base.pid r.base.syscall s.traces;
  names = add_name r.base.pid r.name s.names;
})

unfoldable pub aggr_dispatch : (Traces → Traces) → ℕ → List SysParamsRecord → FileAggr → FileAggr
unfolding collect_all print_all
aggr_dispatch walk now records s =
    let s' = collect_all records s in
    if leb s'.size (length s'.traces) then print_all walk now s' else s'
