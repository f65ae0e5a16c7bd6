-- ===== src/Os.antt =====
-- What the program asks of the operating system: the file helpers of include/utils/utils.h and the
-- calls of the daemon. A function returns the effects of its calls in order; what the system answers
-- is an argument.
pub mod Tasks
use linux_sensors.Base.{
  ℕ, zero, suc, ◌+◌, ◌-◌, List, [], ◌∷◌, ◌++◌, Bool, true, false, Option, none, some, Bytes, codes,
  ltb, ◌==◌, if◌then◌else◌, bytes_eq, Outcome, ok, undefined, ◌>>=◌, length, slice,
}
use linux_sensors.Base.Int.{ℤ}
use linux_sensors.Number.{to_string, str_to_short}
use linux_sensors.Text.{read_at}

pub data Effect : Type 0 where
  wrote : (path content : Bytes) → (append : Bool) → Effect
  removed : (path : Bytes) → Effect
  printed : (text : Bytes) → Effect
  slept : (seconds : ℕ) → Effect
  killed : (pid : ℤ) → (signal : ℕ) → Effect
  file_opened : (path : Bytes) → Effect
  connected : (host : Bytes) → (port : ℤ) → Effect
  ran : (command : Bytes) → Effect

-- `write_to`: the file is opened for appending or anew, and gets the content and a line end.
unfoldable pub write_to : Bytes → Bytes → Bool → Effect
write_to filename content append = wrote filename (content ++ b'\n' ∷ []) append

unfoldable pub sleep_sec : ℕ → Effect
sleep_sec sec = slept sec

-- Regular files by their paths.
abbrev pub Files : Type 0
Files = List (Bytes × Bytes)

unfoldable pub file_at : Bytes → Files → Option Bytes
unfolding bytes_eq
file_at path [] = none
file_at path ((p, content) ∷ files) = if bytes_eq p path then some content else file_at path files

unfoldable pub write_file : Bytes → Bytes → Bool → Files → Files
unfolding bytes_eq
write_file path content append [] = (path, content) ∷ []
write_file path content append ((p, old) ∷ files) =
    if bytes_eq p path
    then (p, if append then old ++ content else content) ∷ files
    else (p, old) ∷ write_file path content append files

unfoldable pub remove_file : Bytes → Files → Files
unfolding bytes_eq
remove_file path [] = []
remove_file path ((p, content) ∷ files) =
    if bytes_eq p path then remove_file path files else (p, content) ∷ remove_file path files

-- What an effect does to the regular files. A file that a stream opens is emptied.
unfoldable pub apply_effect : Effect → Files → Files
unfolding write_file remove_file
apply_effect (wrote path content append) files = write_file path content append files
apply_effect (removed path) files = remove_file path files
apply_effect (printed text) files = files
apply_effect (slept seconds) files = files
apply_effect (killed pid signal) files = files
apply_effect (file_opened path) files = write_file path [] false files
apply_effect (connected host port) files = files
apply_effect (ran command) files = files

unfoldable pub apply_effects : List Effect → Files → Files
unfolding apply_effect
apply_effects [] files = files
apply_effects (e ∷ es) files = apply_effects es (apply_effect e files)

-- The loop of `find_last_linefeed`, with the rounds left: `n` counts back from the end of the file.
-- The function has no return behind the loop.
unfoldable pub linefeed_loop : ℕ → ℕ → Bytes → Outcome ℕ
linefeed_loop zero n infile = undefined
linefeed_loop (suc rounds) n infile = do
  c ← read_at infile (length infile - n - 1)
  elim (c == 0x0a) [ true ↦ ok (length infile - n) | false ↦ linefeed_loop rounds (n + 1) infile ]

unfoldable pub find_last_linefeed : Bytes → Outcome ℕ
unfolding linefeed_loop
find_last_linefeed infile = linefeed_loop (length infile - 1) 1 infile

-- `fgets` with room for `n` characters: what it reads, and the rest.
unfoldable pub fgets : ℕ → Bytes → Bytes × Bytes
fgets zero text = ([], text)
fgets (suc n) [] = ([], [])
fgets (suc n) (c ∷ cs) =
    let (line, rest) = fgets n cs in if c == b'\n' then (c ∷ [], cs) else (c ∷ line, rest)

-- The text of a C string: up to the first NUL.
unfoldable pub c_string : Bytes → Bytes
c_string [] = []
c_string (c ∷ cs) = if c == 0 then [] else c ∷ c_string cs

-- `result.find_last_of(" ") + 1`, which is 0 if there is no space.
unfoldable pub after_last_space : Bytes → ℕ → ℕ → ℕ
after_last_space [] i found = found
after_last_space (c ∷ cs) i found = after_last_space cs (i + 1) (if c == b' ' then i + 1 else found)

-- The process id in one line that `ls -l /proc/<pid>/task` prints, if the line is long enough.
unfoldable pub task_pid : Bytes → Outcome (List ℤ)
unfolding after_last_space
task_pid result =
    let first = after_last_space result 0 0 in
    if ltb 10 (length result)
    then (if ltb (length result - 1) first
        then undefined
        else ok (str_to_short (slice result first (length result - 1 - first)) ∷ []))
    else ok []

-- The loop of `get_pids` over what the pipe prints; each round reads a character at least.
unfoldable pub task_pids : ℕ → Bytes → Outcome (List ℤ)
task_pids fuel [] = ok []
task_pids zero (c ∷ cs) = ok []
task_pids (suc fuel) (c ∷ cs) =
    let (line, rest) = fgets 127 (c ∷ cs) in
    do here ← task_pid (c_string line); more ← task_pids fuel rest; ok (here ++ more)

-- `get_pids`, with what `popen` gives: nothing, or the output of the command.
unfoldable pub get_pids : Option Bytes → Outcome (List ℤ)
unfolding task_pids
get_pids none = ok []
get_pids (some output) = task_pids (length output) output

-- `get_pid`, of what `getpid` returns.
unfoldable pub get_pid : ℤ → ℤ
get_pid pid = pid

-- The command that `get_pids` runs.
unfoldable pub task_command : ℤ → Bytes
task_command ppid = codes "ls -l /proc/" ++ to_string ppid ++ codes "/task"
