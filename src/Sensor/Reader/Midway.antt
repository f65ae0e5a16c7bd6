-- ===== src/Sensor/Reader/Midway.antt =====
-- One round of the reader over a text, of which a part was read: the lines that its bulk adds.
use linux_sensors.Base.{
  lengths, ℕ, suc, ◌+◌, ◌*◌, ◌≤◌, ◌<◌, ◌^◌, ◌≡◌, ◌≢◌, ◌⊎◌, refl, ap, ap₂, sym, subst, ◌∙◌, List, [],
  ◌++◌, map, append_assoc, Bytes, true, false, length, length-append, take, drop, take-append-drop,
  take-append_length, length-take, concat_map, concat_map-append, arith,
}
use linux_sensors.Text.{view, split_string}
use linux_sensors.Text.Lines.{carried, carried_keep, IsSplit, split_string-IsSplit}
use linux_sensors.Text.Completed.{
  newline, complete, remainder, complete-append, complete-remainder, remainder-remainder,
  remainder-newline, length-remainder,
}
use linux_sensors.Sensor.Reader.{
  EventsBulk, TracePipe, Reader, read_chunk, round_text, read_bulk, read_buffer_size,
}

-- The texts of a bulk's references.
abbrev pub bulk_lines : EventsBulk → List Bytes
bulk_lines bulk = map (view bulk.buffer) bulk.lines

abbrev pub lines_of : List EventsBulk → List Bytes
lines_of = concat_map bulk_lines

pub lines_of-append : (xs ys : List EventsBulk) → lines_of (xs ++ ys) ≡ lines_of xs ++ lines_of ys
lines_of-append = concat_map-append bulk_lines

-- No read ends one byte after a line end: `split_string` would lose that byte.
abbrev pub NoLoneByte : Bytes → Type 0
NoLoneByte text =
    (k : ℕ)
    → k * read_buffer_size ≤ length text
    → length (remainder [] (take (k * read_buffer_size) text)) ≢ 1

chunk_short :
    (n : ℕ) (pipe : TracePipe)
    → pipe.opened ≡ true
    → length pipe.rest < n
    → read_chunk n pipe ≡ (pipe.rest, record pipe { rest = []; eof = true })
unfolding read_chunk
chunk_short n pipe h lt = ground arith

pub chunk_full :
    (n : ℕ) (pipe : TracePipe)
    → pipe.opened ≡ true
    → n ≤ length pipe.rest
    → read_chunk n pipe ≡ (take n pipe.rest, record pipe { rest = drop n pipe.rest })
unfolding read_chunk
chunk_full n pipe h le = ground arith

-- The reader in the midst of `text`: `done` was read, and `found` are the lines found so far.
pub record Midway (text done : Bytes) (found : List Bytes) (r : Reader) : Type 0 where
  pub opened : r.pipe.opened ≡ true
  pub runs : r.pipe.eof ≡ false
  pub halves : done ++ r.pipe.rest ≡ text
  pub rounds : (k : ℕ) × (length done ≡ k * read_buffer_size)
  pub held : r.last_line ≡ remainder [] done
  pub lines : found ≡ complete [] done

-- The reader at the end.
pub record Over (text : Bytes) (found : List Bytes) (r : Reader) : Type 0 where
  pub ended : r.pipe.eof ≡ true
  pub held : r.last_line ≡ []
  pub lines : found ≡ complete [] (text ++ newline)

module _ (text done : Bytes) (found : List Bytes) (r : Reader) (m : Midway text done found r)
    (short : length text < 2 ^ 62) where
  rest_short : length r.pipe.rest + length done ≡ length text
  rest_short = omega (arith, length-append done r.pipe.rest, ap length m.halves)

  held_short : length r.last_line ≤ length done
  held_short = omega (arith, ap length m.held, length-remainder done [])

  pub bulk_last :
      length r.pipe.rest < read_buffer_size
      → Over text
          (found ++ bulk_lines (read_bulk read_buffer_size r).0)
          (read_bulk read_buffer_size r).1
  unfolding read_bulk round_text
  bulk_last lt =
      let t = (r.last_line ++ r.pipe.rest) ++ newline in
      let cut : IsSplit t [] (split_string t newline []) =
        split_string-IsSplit t [] (grind (lengths, rest_short, held_short)) in
      rw (chunk_short read_buffer_size r.pipe m.opened lt) (record {
        ended = refl;
        held = cut.rest ∙ ap carried (remainder-newline (r.last_line ++ r.pipe.rest) []);
        lines =
            ap₂ ◌++◌ m.lines (
              cut.views
              ∙ ap (complete []) (append_assoc r.last_line r.pipe.rest newline)
              ∙ ap (λ t. complete [] (t ++ (r.pipe.rest ++ newline))) m.held
              ∙ complete-remainder done (r.pipe.rest ++ newline))
            ∙ sym (complete-append done (r.pipe.rest ++ newline) [])
            ∙ ap (complete []) (sym (append_assoc done r.pipe.rest newline))
            ∙ ap (λ t. complete [] (t ++ newline)) m.halves;
      })

  pub bulk_more :
      NoLoneByte text
      → read_buffer_size ≤ length r.pipe.rest
      → Midway text
          (done ++ take read_buffer_size r.pipe.rest)
          (found ++ bulk_lines (read_bulk read_buffer_size r).0)
          (read_bulk read_buffer_size r).1
  unfolding read_bulk round_text
  bulk_more lone le =
      let chunk = take read_buffer_size r.pipe.rest in
      let t = r.last_line ++ chunk in
      let chunk_length : length chunk ≡ read_buffer_size =
        omega (arith, length-take read_buffer_size r.pipe.rest) in
      let cut : IsSplit t [] (split_string t newline []) =
        split_string-IsSplit t []
          (omega (arith, length-append r.last_line chunk, chunk_length, rest_short, held_short)) in
      let (k, counted) = m.rounds in
      let back : (done ++ chunk) ++ drop read_buffer_size r.pipe.rest ≡ text =
        append_assoc done chunk (drop read_buffer_size r.pipe.rest)
        ∙ ap (λ t. done ++ t) (take-append-drop read_buffer_size r.pipe.rest)
        ∙ m.halves in
      let counted' : length (done ++ chunk) ≡ suc k * read_buffer_size =
        grind (lengths, chunk_length, counted) in
      let is_take : take (suc k * read_buffer_size) text ≡ done ++ chunk =
        ap₂ take (sym counted') (sym back)
        ∙ take-append_length (done ++ chunk) (drop read_buffer_size r.pipe.rest) in
      rw (chunk_full read_buffer_size r.pipe m.opened le, m.runs)
        (record {
          opened = m.opened;
          runs = refl;
          halves = back;
          rounds = (suc k, counted');
          held =
              cut.rest
              ∙ ap (λ t. carried (remainder [] (t ++ chunk))) m.held
              ∙ ap carried (remainder-remainder done chunk)
              ∙ carried_keep (remainder [] (done ++ chunk)) (
                  subst (λ t. length (remainder [] t) ≢ 1) is_take
                    (lone (suc k) (
                      omega (
                        arith,
                        ap length back,
                        counted',
                        length-append (done ++ chunk) (drop read_buffer_size r.pipe.rest),
                      ))));
          lines =
              ap₂ ◌++◌ m.lines (
                cut.views
                ∙ ap (λ t. complete [] (t ++ chunk)) m.held
                ∙ complete-remainder done chunk)
              ∙ sym (complete-append done chunk []);
        })

-- Where the reader is after some rounds.
abbrev pub Progress : Bytes → List Bytes → Reader → Type 0
Progress text found r = ((done : Bytes) × Midway text done found r) ⊎ Over text found r
