-- ===== src/Daemon/PidFile.antt =====
-- The life of the pid file of include/utils/linux_daemon.h.
use linux_sensors.Base.{
  ℕ, zero, suc, ◌≡◌, ◌≢◌, ◌+◌, ◌-◌, ◌*◌, ◌^◌, ◌<◌, [], ◌∷◌, ◌++◌, Bytes, true, Option, none, some,
  refl, ap, ◌∙◌, All, arith, ltb, ◌/◌, ◌%◌, bytes_eq, eq_self, append_assoc, Bool-cases, inl, inr,
}
use linux_sensors.Base.Int.{ℤ, pos, negsuc}
use linux_sensors.Number.{to_string, digits}
use linux_sensors.Number.Decimal.{IsDigit, decimal}
use linux_sensors.Number.RoundTrip.{decimal-digits, digits-IsDigit}
use linux_sensors.Os.{
  Effect, wrote, Files, file_at, write_file, remove_file, apply_effects, write_to,
}
use linux_sensors.Daemon.{
  pid_path, setup_daemon, leading_value, skip_space, signed_value, extract_int, get_sensor_pid,
  remove_sensor_pid,
}

leading_value-decimal :
    (s : Bytes) (v : ℕ) (rest : Bytes)
    → All IsDigit s
    → leading_value v (s ++ b'\n' ∷ rest) ≡ decimal v s
unfolding leading_value
leading_value-decimal [] v rest h = refl
leading_value-decimal (c ∷ s) v rest (h, hs) =
    ground (arith, leading_value-decimal s (v * 10 + (c - 48)) rest hs)

-- A number in decimal digits, from the first of them on.
extract_int-decimal :
    (s : Bytes) (old : ℤ) (rest : Bytes)
    → s ≢ []
    → All IsDigit s
    → decimal 0 s < 2147483648
    → extract_int old (s ++ b'\n' ∷ rest) ≡ pos (decimal 0 s)
unfolding extract_int skip_space signed_value
extract_int-decimal [] old rest h d lt = absurd (h refl)
extract_int-decimal (c ∷ s) old rest h d lt =
    let e = leading_value-decimal (c ∷ s) 0 rest d in ground (arith, e, d.0)

digits_nonempty : (fuel n : ℕ) (rest : Bytes) → rest ≢ [] → digits fuel n rest ≢ []
unfolding digits
digits_nonempty zero n rest h = h
digits_nonempty (suc fuel) n rest h = elim (Bool-cases (ltb n 10)) [
  | inl e ↦ rw e (λ f. cc)
  | inr e ↦ rw e (digits_nonempty fuel (n / 10) ((48 + n % 10) ∷ rest) (λ f. cc))
]

last_digits_nonempty : (n : ℕ) → digits 20 n [] ≢ []
last_digits_nonempty n =
    unfold digits in
    elim (Bool-cases (ltb n 10)) [
      | inl e ↦ rw e (λ f. cc)
      | inr e ↦ rw e (digits_nonempty 19 (n / 10) ((48 + n % 10) ∷ []) (λ f. cc))
    ]

-- `get_sensor_pid` reads the process id on the first line of the file, whatever lines follow it.
pub get_sensor_pid-to_string :
    (n : ℕ) (rest : Bytes)
    → n < 2 ^ 31
    → get_sensor_pid (some (to_string (pos n) ++ b'\n' ∷ rest)) ≡ pos n
unfolding get_sensor_pid to_string
get_sensor_pid-to_string n rest lt =
    let value = decimal-digits 20 n [] (omega arith) in
    extract_int-decimal (digits 20 n []) (negsuc 0) rest (last_digits_nonempty n)
      (digits-IsDigit 20 n [] tt) (omega (arith, value))
    ∙ ap pos value

-- What a file holds, or nothing.
abbrev pub content_of : Option Bytes → Bytes
content_of none = []
content_of (some content) = content

bytes_eq_self : (path : Bytes) → bytes_eq path path ≡ true
unfolding bytes_eq
bytes_eq_self [] = refl
bytes_eq_self (c ∷ path) = rw (eq_self c) (bytes_eq_self path)

file_at-write_file :
    (path content : Bytes) (files : Files)
    → file_at path (write_file path content true files)
      ≡ some (content_of (file_at path files) ++ content)
unfolding file_at write_file
file_at-write_file path content [] = rw (bytes_eq_self path) refl
file_at-write_file path content ((p, old) ∷ files) = elim (Bool-cases (bytes_eq p path)) [
  | inl e ↦ rw (e, e) refl
  | inr e ↦ rw (e, e) (file_at-write_file path content files)
]

file_at-remove_file : (path : Bytes) (files : Files) → file_at path (remove_file path files) ≡ none
unfolding file_at remove_file
file_at-remove_file path [] = refl
file_at-remove_file path ((p, old) ∷ files) = elim (Bool-cases (bytes_eq p path)) [
  | inl e ↦ rw e (file_at-remove_file path files)
  | inr e ↦ rw (e, e) (file_at-remove_file path files)
]

module _ (deamon_name run_path : Bytes) (files : Files) where
  -- The pid file that a daemon of process id `n` finds after its `setup_daemon`, where sid and chdir
  -- are what the last calls return.
  abbrev pub pid_file_after : (n sid chdir : ℕ) → Option Bytes
  pid_file_after n sid chdir = file_at (pid_path deamon_name run_path) (
      apply_effects (setup_daemon deamon_name run_path (pos 0) (pos n) (pos sid) (pos chdir)).1
        files)

  pid_file_appended :
      (n sid chdir : ℕ)
      → pid_file_after n sid chdir
        ≡ some (
            content_of (file_at (pid_path deamon_name run_path) files)
            ++ (to_string (pos n) ++ b'\n' ∷ []))
  unfolding setup_daemon apply_effects linux_sensors.Os.apply_effect write_to
  pid_file_appended n sid chdir = file_at-write_file (pid_path deamon_name run_path) _ files

  -- Where there is no pid file, `get_sensor_pid` reads the daemon's process id after `setup_daemon`.
  pub setup_daemon-get_sensor_pid :
      (n sid chdir : ℕ)
      → n < 2 ^ 31
      → file_at (pid_path deamon_name run_path) files ≡ none
      → get_sensor_pid (pid_file_after n sid chdir) ≡ pos n
  setup_daemon-get_sensor_pid n sid chdir lt fresh =
      ap get_sensor_pid (
        pid_file_appended n sid chdir
        ∙ ap (λ o. some (content_of o ++ (to_string (pos n) ++ b'\n' ∷ []))) fresh)
      ∙ get_sensor_pid-to_string n [] lt

  -- Where the pid file of an earlier daemon is left, `get_sensor_pid` still reads the earlier process
  -- id after `setup_daemon`, since the new one is appended.
  pub setup_daemon_stale :
      (old n sid chdir : ℕ)
      → old < 2 ^ 31
      → file_at (pid_path deamon_name run_path) files ≡ some (to_string (pos old) ++ b'\n' ∷ [])
      → get_sensor_pid (pid_file_after n sid chdir) ≡ pos old
  setup_daemon_stale old n sid chdir lt left =
      ap get_sensor_pid (
        pid_file_appended n sid chdir
        ∙ ap (λ o. some (content_of o ++ (to_string (pos n) ++ b'\n' ∷ []))) left
        ∙ ap some
            (append_assoc (to_string (pos old)) (b'\n' ∷ []) (to_string (pos n) ++ b'\n' ∷ [])))
      ∙ get_sensor_pid-to_string old (to_string (pos n) ++ b'\n' ∷ []) lt

  -- After `remove_sensor_pid`, `get_sensor_pid` is -1.
  pub remove_sensor_pid-get_sensor_pid :
      get_sensor_pid (
        file_at
          (pid_path deamon_name run_path)
          (apply_effects (remove_sensor_pid deamon_name run_path) files))
      ≡ negsuc 0
  unfolding remove_sensor_pid apply_effects linux_sensors.Os.apply_effect get_sensor_pid
  remove_sensor_pid-get_sensor_pid =
      ap get_sensor_pid (file_at-remove_file (pid_path deamon_name run_path) files)
