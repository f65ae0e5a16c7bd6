-- ===== src/Sensor/Reader/Rounds.antt =====
-- The reader's loop ends on every stream that opened, and on no other.
use linux_sensors.Base.{
  ℕ, zero, suc, ◌+◌, ◌*◌, ◌≤◌, ◌<◌, ◌≡◌, ◌⊎◌, inl, inr, refl, ap, sym, ◌∙◌, List, [], ◌∷◌, ◌++◌,
  true, false, none, some, Bool-cases, Option-cases, some-injective, none-ne-some, length,
  length-drop, arith,
}
use linux_sensors.Sensor.Reader.{
  EventsBulk, TracePipe, Reader, read_chunk, read_bulk, read_bulks, read_all, read_buffer_size,
  bulk_capacity,
}

-- A read of an open stream ends it or takes `n` bytes.
pub record Shorter (n : ℕ) (before after : TracePipe) : Type 0 where
  pub opened : after.opened ≡ true
  pub shorter : (after.eof ≡ true) ⊎ (length after.rest + n ≤ length before.rest)

read_chunk-Shorter :
    (n : ℕ) (pipe : TracePipe) → pipe.opened ≡ true → Shorter n pipe (read_chunk n pipe).1
unfolding read_chunk
read_chunk-Shorter n pipe h = ground (arith, length-drop n pipe.rest)

read_bulk-Shorter :
    (n : ℕ) (r : Reader) → r.pipe.opened ≡ true → Shorter n r.pipe (read_bulk n r).1.pipe
unfolding read_bulk
read_bulk-Shorter n r h = read_chunk-Shorter n r.pipe h

module _ (n rounds : ℕ) (r : Reader) where
  pub read_bulks_end : r.pipe.eof ≡ true → read_bulks n rounds r ≡ ([], r)
  unfolding read_bulks
  read_bulks_end e = elim rounds as (λ k. read_bulks n k r ≡ ([], r)) [
    | zero ↦ refl
    | suc k ↦ simp (e, read_bulks)
  ]

  pub read_bulks_go :
      r.pipe.eof ≡ false
      → read_bulks n (suc rounds) r ≡ (
        (read_bulk n r).0 ∷ (read_bulks n rounds (read_bulk n r).1).0,
        (read_bulks n rounds (read_bulk n r).1).1,
      )
  unfolding read_bulks
  read_bulks_go e = simp (e, read_bulks)

pub read_bulks-Shorter :
    (n rounds : ℕ) (r : Reader)
    → r.pipe.opened ≡ true
    → r.pipe.eof ≡ false
    → Shorter n r.pipe (read_bulks n (suc rounds) r).1.pipe
read_bulks-Shorter n zero r h e =
    rw (read_bulks_go n zero r e) (unfold read_bulks in read_bulk-Shorter n r h)
read_bulks-Shorter n (suc rounds) r h e =
    let one = read_bulk-Shorter n r h in
    rw (read_bulks_go n (suc rounds) r e) (elim (Bool-cases (read_bulk n r).1.pipe.eof) [
      | inl ended ↦ rw (read_bulks_end n (suc rounds) (read_bulk n r).1 ended) one
      | inr more ↦
          let rest = read_bulks-Shorter n rounds (read_bulk n r).1 one.opened more in
          record { opened = rest.opened; shorter = ground (arith, one.shorter, rest.shorter) }
    ])

-- A round of the outer loop.
module _ (r : Reader) where
  pub round_last :
      (fuel : ℕ)
      → (read_bulks read_buffer_size bulk_capacity r).1.pipe.eof ≡ true
      → read_all (suc fuel) r ≡ some (read_bulks read_buffer_size bulk_capacity r)
  unfolding read_all
  round_last fuel e = simp (e, read_all)

  pub round_more :
      (fuel : ℕ) (more : List EventsBulk) (last : Reader)
      → (read_bulks read_buffer_size bulk_capacity r).1.pipe.eof ≡ false
      → read_all fuel (read_bulks read_buffer_size bulk_capacity r).1 ≡ some (more, last)
      → read_all (suc fuel) r ≡ some ((read_bulks read_buffer_size bulk_capacity r).0 ++ more, last)
  unfolding read_all
  round_more fuel more last e h = rw (e, read_all) (rw h refl)

  pub round_stuck :
      (fuel : ℕ)
      → (read_bulks read_buffer_size bulk_capacity r).1.pipe.eof ≡ false
      → read_all fuel (read_bulks read_buffer_size bulk_capacity r).1 ≡ none
      → read_all (suc fuel) r ≡ none
  unfolding read_all
  round_stuck fuel e h = rw (e, read_all) (rw h refl)

-- A loop that goes on after a round leaves what the later rounds leave, behind the round's bulks.
pub read_more :
    (r : Reader) (fuel : ℕ) (a : List EventsBulk × Reader)
    → (read_bulks read_buffer_size bulk_capacity r).1.pipe.eof ≡ false
    → read_all (suc fuel) r ≡ some a
    → (m : List EventsBulk × Reader) × ((read_all fuel
            (read_bulks read_buffer_size bulk_capacity r).1
          ≡ some m)
        × (a ≡ ((read_bulks read_buffer_size bulk_capacity r).0 ++ m.0, m.1)))
read_more r fuel a e h =
    elim (Option-cases (read_all fuel (read_bulks read_buffer_size bulk_capacity r).1)) [
      | inl none' ↦ absurd (none-ne-some a (sym (round_stuck r fuel e none') ∙ h))
      | inr ((more, last), m) ↦
          ((more, last), (m, some-injective a _ (sym h ∙ round_more r fuel more last e m)))
    ]

-- The fuel does not matter once it is enough.
pub read_all_unique :
    (f g : ℕ) (r : Reader) (a b : List EventsBulk × Reader)
    → read_all f r ≡ some a
    → read_all g r ≡ some b
    → a ≡ b
read_all_unique zero g r a b p q = unfold read_all in cc
read_all_unique (suc f) zero r a b p q = unfold read_all in cc
read_all_unique (suc f) (suc g) r a b p q =
    elim (Bool-cases (read_bulks read_buffer_size bulk_capacity r).1.pipe.eof) [
      | inl e ↦ some-injective a b (sym p ∙ round_last r f e ∙ sym (round_last r g e) ∙ q)
      | inr e ↦
          let (m, p') = read_more r f a e p in
          let (n, q') = read_more r g b e q in
          let same =
            read_all_unique f g (read_bulks read_buffer_size bulk_capacity r).1 m n p'.0 q'.0 in
          p'.1
          ∙ ap
              (λ (t : List EventsBulk × Reader).
                ((read_bulks read_buffer_size bulk_capacity r).0 ++ t.0, t.1))
              same
          ∙ sym q'.1
    ]

-- For every stream that opened, the loop of `_read_stream` ends, within one round for each 1024
-- bytes and one more, and leaves the stream at its end.
pub read_all_ends :
    (fuel : ℕ) (r : Reader)
    → r.pipe.opened ≡ true
    → r.pipe.eof ≡ false
    → length r.pipe.rest < fuel * read_buffer_size
    → (result : List EventsBulk × Reader) × ((read_all fuel r ≡ some result)
        × (result.1.pipe.eof ≡ true))
read_all_ends zero r h e lt = absurd (omega arith)
read_all_ends (suc fuel) r h e lt =
    let one = read_bulks-Shorter read_buffer_size 511 r h e in
    elim (Bool-cases (read_bulks read_buffer_size bulk_capacity r).1.pipe.eof) [
      | inl ended ↦ (read_bulks read_buffer_size bulk_capacity r, (round_last r fuel ended, ended))
      | inr more ↦
          let (result, (m, ended)) =
            read_all_ends fuel (read_bulks read_buffer_size bulk_capacity r).1 one.opened more
              (ground (arith, one.shorter)) in
          (
            ((read_bulks read_buffer_size bulk_capacity r).0 ++ result.0, result.1),
            (round_more r fuel result.0 result.1 more m, ended),
          )
    ]

read_bulk-unopened : (n : ℕ) (r : Reader) → r.pipe.opened ≡ false → (read_bulk n r).1.pipe ≡ r.pipe
unfolding read_bulk read_chunk
read_bulk-unopened n r h = simp h

read_bulks-unopened :
    (n rounds : ℕ) (r : Reader)
    → r.pipe.opened ≡ false
    → r.pipe.eof ≡ false
    → (read_bulks n rounds r).1.pipe ≡ r.pipe
read_bulks-unopened n zero r h e = unfold read_bulks in refl
read_bulks-unopened n (suc rounds) r h e =
    let same = read_bulk-unopened n r h in
    rw (read_bulks_go n rounds r e) (
      read_bulks-unopened n rounds (read_bulk n r).1 (ap (λ p. p.opened) same ∙ h)
        (ap (λ p. p.eof) same ∙ e)
      ∙ same)

-- On a stream that did not open, the loop of `_read_stream` does not end: no number of rounds is
-- enough, since eofbit is never set.
pub read_all_stuck :
    (fuel : ℕ) (r : Reader) → r.pipe.opened ≡ false → r.pipe.eof ≡ false → read_all fuel r ≡ none
read_all_stuck zero r h e = unfold read_all in refl
read_all_stuck (suc fuel) r h e =
    let same = read_bulks-unopened read_buffer_size bulk_capacity r h e in
    let e' = ap (λ p. p.eof) same ∙ e in
    round_stuck r fuel e' (
      read_all_stuck fuel (read_bulks read_buffer_size bulk_capacity r).1
        (ap (λ p. p.opened) same ∙ h) e')
