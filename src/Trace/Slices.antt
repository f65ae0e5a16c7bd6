-- ===== src/Trace/Slices.antt =====
-- A slice of a text shows the text from an offset on: the numbers read in it are those of the text.
use linux_sensors.Base.{
  lengths, ℕ, zero, suc, ◌+◌, ◌≤◌, ◌<◌, ◌≡◌, refl, ap, ap₂, sym, ◌∙◌, List, [], ◌∷◌, Bytes, true,
  false, none, some, Outcome, ok, undefined, ◌>>=◌, length, get_elem?, drop, take, slice,
  slice-take, drop-drop, arith, ◌==◌,
}
use mathlib.Core.Path.{fun_ext}
use linux_sensors.Base.Int.{ℤ, to_short, int_result}
use linux_sensors.Number.{next_value}
use linux_sensors.Text.{read_at}
use linux_sensors.Trace.{pid_loop, syscall_loop}
use linux_sensors.Trace.Reads.{drop_cons}

get_elem?-drop {ℓ} :
    {A : Type ℓ} (xs : List A) (s i : ℕ) → get_elem? (drop s xs) i ≡ get_elem? xs (s + i)
get_elem?-drop xs zero i = ap (get_elem? xs) (omega arith)
get_elem?-drop [] (suc s) i = refl
get_elem?-drop (x ∷ xs) (suc s) i =
    get_elem?-drop xs s i ∙ ap (get_elem? (x ∷ xs)) {x = suc (s + i)} (omega arith)

get_elem?-take {ℓ} :
    {A : Type ℓ} (xs : List A) (n i : ℕ) → i < n → get_elem? (take n xs) i ≡ get_elem? xs i
get_elem?-take xs zero i h = absurd (omega arith)
get_elem?-take [] (suc n) i h = refl
get_elem?-take (x ∷ xs) (suc n) zero h = refl
get_elem?-take (x ∷ xs) (suc n) (suc i) h = get_elem?-take xs n i (omega arith)

-- A string shows a line from an offset on.
module _ (text : Bytes) (s n : ℕ) (inside : s + n ≤ length text) where
  pub read_at-slice : (i : ℕ) → i < n → read_at text (s + i) ≡ read_at (slice text s n) i
  unfolding read_at
  read_at-slice i h =
      ap (λ o. elim o as (λ _. Outcome ℕ) [ none ↦ undefined | some c ↦ ok c ])
        (sym (get_elem?-take (drop s text) n i h ∙ get_elem?-drop text s i))

  pub slice-slice : (b k : ℕ) → b + k ≤ n → slice text (s + b) k ≡ slice (slice text s n) b k
  slice-slice b k h =
      ap (take k) (sym (drop-drop b s text)) ∙ sym (slice-take (drop s text) b k n h)

  pub length-slice : length (slice text s n) ≡ n
  length-slice = grind lengths

  pub pid_loop-slice :
      (k i : ℕ) (v : ℤ) → i + k ≤ n → pid_loop text (s + i) k v ≡ pid_loop (slice text s n) i k v
  unfolding pid_loop
  pid_loop-slice zero i v h = refl
  pid_loop-slice (suc k) i v h =
      let onward : (next : ℤ)
          → pid_loop text (s + i + 1) k next ≡ pid_loop (slice text s n) (i + 1) k next =
        λ next.
          ap (λ j. pid_loop text j k next) {x = s + i + 1} {y = s + (i + 1)} (omega arith)
          ∙ pid_loop-slice k (i + 1) next (omega arith) in
      ap₂
        (λ o f. o >>= λ c. elim (c == b' ') as (λ _. Outcome ℤ) [
          | true ↦ ok v
          | false ↦ int_result (next_value v c) >>= f
        ])
        (read_at-slice i (omega arith)) (fun_ext onward)

  pub syscall_loop-slice :
      (k i : ℕ) (v : ℤ)
      → i + k ≤ n
      → syscall_loop text (s + i) k v ≡ syscall_loop (slice text s n) i k v
  unfolding syscall_loop
  syscall_loop-slice zero i v h = refl
  syscall_loop-slice (suc k) i v h =
      let onward : (next : ℤ)
          → syscall_loop text (s + i + 1) k next ≡ syscall_loop (slice text s n) (i + 1) k next =
        λ next.
          ap (λ j. syscall_loop text j k next) {x = s + i + 1} {y = s + (i + 1)} (omega arith)
          ∙ syscall_loop-slice k (i + 1) next (omega arith) in
      ap₂
        (λ (o : Outcome ℕ) (f : ℤ → Outcome ℤ). o >>= λ c. elim (c == b' ') as (λ _. Outcome ℤ) [
          | true ↦ ok v
          | false ↦ f (to_short (next_value v c))
        ])
        (read_at-slice i (omega arith)) (fun_ext onward)

pub read_inside : (text : Bytes) (i : ℕ) → i < length text → (c : ℕ) × (read_at text i ≡ ok c)
unfolding read_at
read_inside text i h = let (c, e, _) = drop_cons text i h in (c, rw (read_at, e) refl)
