-- ===== src/Os/Tasks.antt =====
-- What `get_pids` of include/utils/utils.h reads of the output of `ls -l /proc/<pid>/task`.
use linux_sensors.Base.{
  lengths, ℕ, zero, suc, ◌+◌, ◌-◌, ◌^◌, ◌≤◌, ◌<◌, ◌≡◌, ◌≢◌, refl, ap, ap₂, ◌∙◌, List, [], ◌∷◌, ◌++◌,
  append_assoc, map, Bytes, codes, some, false, ◌==◌, if◌then◌else◌, Outcome, ok, ◌>>=◌, ltb,
  lt→ltb, length, length-append, take, drop, drop-append_length, take-append_length, slice, All,
  All-append, All-mono, concat_map, arith,
}
use linux_sensors.Base.Int.{ℤ, pos, to_short}
use linux_sensors.Number.{to_string, str_to_short}
use linux_sensors.Number.Decimal.{IsDigit}
use linux_sensors.Number.RoundTrip.{digits-IsDigit, str_to_short-to_string}
use linux_sensors.Os.{fgets, c_string, after_last_space, task_pid, task_pids, get_pids}

-- A line of the list: what stands before the last space, and the id of a thread.
pub record Task : Type 0 where
  pub attributes : Bytes
  pub pid : ℕ

abbrev pub IsClean : Bytes → Type 0
IsClean = All (λ c. (c ≢ b'\n') × (c ≢ 0))

abbrev pub number : Task → Bytes
number t = to_string (pos t.pid)

abbrev pub body : Task → Bytes
body t = (t.attributes ++ b' ' ∷ []) ++ number t

abbrev pub task_line : Task → Bytes
task_line t = body t ++ b'\n' ∷ []

-- A line that is long enough to be looked at, and short enough for the buffer.
pub record IsListed (t : Task) : Type 0 where
  pub clean : IsClean t.attributes
  pub fits : t.pid < 2 ^ 64
  pub long : 10 ≤ length (body t)
  pub short : length (body t) < 127

number-IsDigit : (t : Task) → All IsDigit (number t)
unfolding to_string
number-IsDigit t = digits-IsDigit 20 t.pid [] tt

body-IsClean : (t : Task) → IsClean t.attributes → IsClean (body t)
body-IsClean t clean =
    All-append (λ c. (c ≢ b'\n') × (c ≢ 0)) (t.attributes ++ b' ' ∷ []) (number t)
      (All-append (λ c. (c ≢ b'\n') × (c ≢ 0)) t.attributes (b' ' ∷ []) clean
        ((omega arith, omega arith), tt))
      (All-mono IsDigit (λ c. (c ≢ b'\n') × (c ≢ 0)) (λ c d. (ground (arith, d), ground (arith, d)))
        (number t) (number-IsDigit t))

fgets_line :
    (n : ℕ) (xs rest : Bytes)
    → IsClean xs
    → length xs < n
    → fgets n (xs ++ b'\n' ∷ rest) ≡ (xs ++ b'\n' ∷ [], rest)
unfolding fgets
fgets_line zero xs rest clean lt = absurd (omega arith)
fgets_line (suc n) [] rest clean lt = refl
fgets_line (suc n) (c ∷ xs) rest (h, hs) lt =
    let ordinary : (c == b'\n') ≡ false = ground (arith, h.0) in
    ap
      (λ b.
        if b
        then (c ∷ [], xs ++ b'\n' ∷ rest)
        else (c ∷ (fgets n (xs ++ b'\n' ∷ rest)).0, (fgets n (xs ++ b'\n' ∷ rest)).1))
      ordinary
    ∙ ap (λ (r : Bytes × Bytes). (c ∷ r.0, r.1)) (fgets_line n xs rest hs (omega arith))

c_string_line : (xs : Bytes) → IsClean xs → c_string (xs ++ b'\n' ∷ []) ≡ xs ++ b'\n' ∷ []
unfolding c_string
c_string_line [] clean = refl
c_string_line (c ∷ xs) (h, hs) =
    let ordinary : (c == 0) ≡ false = ground (arith, h.1) in
    ap (λ b. if b then [] else c ∷ c_string (xs ++ b'\n' ∷ [])) ordinary
    ∙ ap (λ t. c ∷ t) (c_string_line xs hs)

after_last_space-append :
    (xs ys : Bytes) (i found : ℕ)
    → after_last_space (xs ++ ys) i found
      ≡ after_last_space ys (i + length xs) (after_last_space xs i found)
unfolding after_last_space
after_last_space-append [] ys i found =
    ap (λ k. after_last_space ys k found) {x = i} {y = i + 0} (omega arith)
after_last_space-append (c ∷ xs) ys i found =
    after_last_space-append xs ys (i + 1) (if c == b' ' then i + 1 else found)
    ∙ ap
        (λ k.
          after_last_space ys k (after_last_space xs (i + 1) (if c == b' ' then i + 1 else found)))
        {x = i + 1 + length xs} {y = i + suc (length xs)} (omega arith)

no_space : (xs : Bytes) (i found : ℕ) → All (λ c. c ≢ b' ') xs → after_last_space xs i found ≡ found
unfolding after_last_space
no_space [] i found h = refl
no_space (c ∷ xs) i found (h, hs) =
    let ordinary : (c == b' ') ≡ false = ground (arith, h) in
    no_space xs (i + 1) (if c == b' ' then i + 1 else found) hs
    ∙ ap (λ b. if b then i + 1 else found) ordinary

task_pid_lem :
    (result : Bytes) (first : ℕ)
    → after_last_space result 0 0 ≡ first
    → 10 < length result
    → first < length result
    → task_pid result ≡ ok (str_to_short (slice result first (length result - 1 - first)) ∷ [])
unfolding task_pid
task_pid_lem result first same long inside =
    let no : ltb (length result - 1) first ≡ false = ground arith in
    simp (same, lt→ltb 10 (length result) long, no)

module _ (t : Task) (listed : IsListed t) where
  abbrev before : Bytes
  before = t.attributes ++ b' ' ∷ []

  abbrev from_number : Bytes
  from_number = number t ++ b'\n' ∷ []

  cut : task_line t ≡ before ++ from_number
  cut = append_assoc before (number t) (b'\n' ∷ [])

  number_unbroken : All (λ c. c ≢ b' ') from_number
  number_unbroken =
      All-append (λ c. c ≢ b' ') (number t) (b'\n' ∷ [])
        (All-mono IsDigit (λ c. c ≢ b' ') (λ c d. ground (arith, d)) (number t) (number-IsDigit t))
        (omega arith, tt)

  last_space : after_last_space (task_line t) 0 0 ≡ length before
  last_space =
      ap (λ l. after_last_space l 0 0) cut
      ∙ after_last_space-append before from_number 0 0
      ∙ no_space from_number (0 + length before) (after_last_space before 0 0) number_unbroken
      ∙ after_last_space-append t.attributes (b' ' ∷ []) 0 0
      ∙ unfold after_last_space in omega (arith, length-append t.attributes (b' ' ∷ []))

  line_length : length (task_line t) ≡ length before + length (number t) + 1
  line_length = grind lengths

  line_number :
      slice (task_line t) (length before) (length (task_line t) - 1 - length before) ≡ number t
  line_number =
      ap (take (length (task_line t) - 1 - length before))
        (ap (drop (length before)) cut ∙ drop-append_length before from_number)
      ∙ ap (λ k. take k from_number) {x = length (task_line t) - 1 - length before}
          {y = length (number t)} (omega (arith, line_length))
      ∙ take-append_length (number t) (b'\n' ∷ [])

  task_pid-line : task_pid (task_line t) ≡ ok (to_short (pos t.pid) ∷ [])
  task_pid-line =
      task_pid_lem (task_line t) (length before) last_space (grind (lengths, listed.long))
        (omega (arith, line_length))
      ∙ ap (λ l. ok (str_to_short l ∷ [])) line_number
      ∙ ap (λ v. ok (v ∷ [])) (str_to_short-to_string t.pid listed.fits)

-- One round of the loop reads one line.
abbrev read_line : ℕ → Bytes × Bytes → Outcome (List ℤ)
read_line fuel (line, rest) =
    task_pid (c_string line) >>= λ here. task_pids fuel rest >>= λ more. ok (here ++ more)

task_pids_go :
    (fuel : ℕ) (xs rest : Bytes)
    → task_pids (suc fuel) (xs ++ b'\n' ∷ rest) ≡ read_line fuel (fgets 127 (xs ++ b'\n' ∷ rest))
unfolding task_pids
task_pids_go fuel [] rest = refl
task_pids_go fuel (x ∷ xs) rest = refl

task_pids_round :
    (fuel : ℕ) (xs rest : Bytes) (pids more : List ℤ)
    → IsClean xs
    → length xs < 127
    → task_pid (xs ++ b'\n' ∷ []) ≡ ok pids
    → task_pids fuel rest ≡ ok more
    → task_pids (suc fuel) (xs ++ b'\n' ∷ rest) ≡ ok (pids ++ more)
task_pids_round fuel xs rest pids more clean short here later =
    task_pids_go fuel xs rest
    ∙ ap (read_line fuel) (fgets_line 127 xs rest clean short)
    ∙ ap₂ (λ (a b : Outcome (List ℤ)). a >>= λ here. b >>= λ more. ok (here ++ more))
        (ap task_pid (c_string_line xs clean) ∙ here) later

abbrev pub listing : List Task → Bytes
listing = concat_map task_line

task_pids-listing :
    (tasks : List Task) (fuel : ℕ)
    → All IsListed tasks
    → length (listing tasks) ≤ fuel
    → task_pids fuel (listing tasks) ≡ ok (map (λ t. to_short (pos t.pid)) tasks)
task_pids-listing [] fuel listed enough =
    unfold task_pids in elim fuel as (λ k. task_pids k [] ≡ ok []) [ zero ↦ refl | suc k ↦ refl ]
task_pids-listing (t ∷ tasks) zero listed enough = absurd (grind lengths)
task_pids-listing (t ∷ tasks) (suc fuel) (h, hs) enough =
    ap (task_pids (suc fuel)) (append_assoc (body t) (b'\n' ∷ []) (listing tasks))
    ∙ task_pids_round fuel (body t) (listing tasks) (to_short (pos t.pid) ∷ [])
        (map (λ t. to_short (pos t.pid)) tasks) (body-IsClean t h.clean) h.short (task_pid-line t h)
        (task_pids-listing tasks fuel hs (grind (lengths, enough)))

-- From the output of `ls -l`, a line `total 0` and a line of 11 to 127 characters for each thread,
-- which has no line end or NUL inside and ends in the thread's id, below 2 ^ 64, `get_pids` makes the
-- ids, in order, each as a `short`.
pub get_pids-listing :
    (tasks : List Task)
    → All IsListed tasks
    → get_pids (some (codes "total 0" ++ b'\n' ∷ listing tasks))
      ≡ ok (map (λ t. to_short (pos t.pid)) tasks)
unfolding get_pids
get_pids-listing tasks listed =
    ap (λ k. task_pids k (codes "total 0" ++ b'\n' ∷ listing tasks))
      {x = length (codes "total 0" ++ b'\n' ∷ listing tasks)} {y = suc (7 + length (listing tasks))}
      (omega arith)
    ∙ task_pids_round (7 + length (listing tasks)) (codes "total 0") (listing tasks) []
        (map (λ t. to_short (pos t.pid)) tasks) (ground arith) (omega arith)
        (unfold task_pid in refl)
        (task_pids-listing tasks (7 + length (listing tasks)) listed (omega arith))
