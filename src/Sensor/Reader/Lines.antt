-- ===== src/Sensor/Reader/Lines.antt =====
-- The lines of the bulks are the lines of the text of `trace_pipe`, across all reads.
use linux_sensors.Base.{
  ℕ, zero, suc, ◌*◌, ◌≤◌, ◌<◌, ◌^◌, ◌≡◌, inl, inr, refl, ap, sym, subst, ◌∙◌, List, [], ◌∷◌, ◌++◌,
  append-nil, append_assoc, Bytes, true, false, some, some-injective, Bool-cases, ltb, ltb→lt,
  ltb-false→le, length, length-append, take, drop, length-take, arith,
}
use linux_sensors.Text.{split_string}
use linux_sensors.Text.Lines.{carried, IsSplit, split_string-IsSplit}
use linux_sensors.Text.Completed.{newline, complete, remainder, complete-append}
use linux_sensors.Sensor.Reader.{
  EventsBulk, Reader, round_text, read_bulk, read_bulks, read_all, read_buffer_size, bulk_capacity,
}
use linux_sensors.Sensor.Reader.Rounds.{
  read_bulks_end, read_bulks_go, round_last, read_more, read_all_ends,
}
use linux_sensors.Sensor.Watch.{EventsWatch}
use linux_sensors.Sensor.Reader.Midway.{
  Midway, NoLoneByte, Over, Progress, bulk_last, bulk_more, chunk_full, lines_of, lines_of-append,
  bulk_lines,
}

pub Progress-Over :
    (text : Bytes) (found : List Bytes) (r : Reader)
    → Progress text found r
    → r.pipe.eof ≡ true
    → Over text found r
Progress-Over text found r (inl (done, m)) e = absurd (cc (e, m.runs))
Progress-Over text found r (inr o) e = o

module _ (text : Bytes) (lone : NoLoneByte text) (short : length text < 2 ^ 62) where
  bulk_Progress :
      (done : Bytes) (found : List Bytes) (r : Reader)
      → Midway text done found r
      → Progress text
          (found ++ bulk_lines (read_bulk read_buffer_size r).0)
          (read_bulk read_buffer_size r).1
  bulk_Progress done found r m = elim (Bool-cases (ltb (length r.pipe.rest) read_buffer_size)) [
    | inl e ↦ inr (bulk_last text done found r m short (ltb→lt _ _ e))
    | inr e ↦
        let few : ¬ (length r.pipe.rest < read_buffer_size) = ltb-false→le _ _ e in
        inl (_, bulk_more text done found r m short lone (omega (arith, few)))
  ]

  pub bulks_Progress :
      (rounds : ℕ) (found : List Bytes) (r : Reader)
      → Progress text found r
      → Progress text
          (found ++ lines_of (read_bulks read_buffer_size rounds r).0)
          (read_bulks read_buffer_size rounds r).1
  bulks_Progress rounds found r (inr o) =
      rw (read_bulks_end read_buffer_size rounds r o.ended, append-nil) (inr o)
  bulks_Progress zero found r (inl (done, m)) = unfold read_bulks in rw append-nil (inl (done, m))
  bulks_Progress (suc rounds) found r (inl (done, m)) =
      rw (read_bulks_go read_buffer_size rounds r m.runs) (
        subst
          (λ t.
            Progress text t (read_bulks read_buffer_size rounds (read_bulk read_buffer_size r).1).1)
          (append_assoc found (bulk_lines (read_bulk read_buffer_size r).0)
            (lines_of (read_bulks read_buffer_size rounds (read_bulk read_buffer_size r).1).0))
          (bulks_Progress rounds (found ++ bulk_lines (read_bulk read_buffer_size r).0)
            (read_bulk read_buffer_size r).1 (bulk_Progress done found r m)))

  read_all_lines :
      (fuel : ℕ) (found : List Bytes) (r : Reader) (bulks : List EventsBulk) (last : Reader)
      → Progress text found r
      → read_all fuel r ≡ some (bulks, last)
      → Over text (found ++ lines_of bulks) last
  read_all_lines zero found r bulks last p h = unfold read_all in cc
  read_all_lines (suc fuel) found r bulks last p h =
      let round = bulks_Progress bulk_capacity found r p in
      let new = read_bulks read_buffer_size bulk_capacity r in
      elim (Bool-cases (read_bulks read_buffer_size bulk_capacity r).1.pipe.eof) [
        | inl e ↦
            subst (λ (b : List EventsBulk × Reader). Over text (found ++ lines_of b.0) b.1)
              (some-injective new (bulks, last) (sym (round_last r fuel e) ∙ h))
              (Progress-Over text (found ++ lines_of new.0) new.1 round e)
        | inr e ↦
            let ((more, last'), (m, same)) = read_more r fuel (bulks, last) e h in
            subst (λ (b : List EventsBulk × Reader). Over text (found ++ lines_of b.0) b.1)
              (sym same)
              (subst (λ t. Over text t last')
                (append_assoc found (lines_of new.0) (lines_of more)
                  ∙ ap (λ t. found ++ t) (sym (lines_of-append new.0 more)))
                (read_all_lines fuel (found ++ lines_of new.0) new.1 more last' round m))
      ]

-- The lines found so far are the first lines of the text.
pub Progress-first :
    (text : Bytes) (found : List Bytes) (r : Reader)
    → Progress text found r
    → (rest : List Bytes) × (found ++ rest ≡ complete [] (text ++ newline))
Progress-first text found r (inl (done, m)) = (
  complete (remainder [] done) (r.pipe.rest ++ newline),
  ap (λ t. t ++ complete (remainder [] done) (r.pipe.rest ++ newline)) m.lines
      ∙ sym (complete-append done (r.pipe.rest ++ newline) [])
      ∙ ap (complete []) (sym (append_assoc done r.pipe.rest newline))
      ∙ ap (λ t. complete [] (t ++ newline)) m.halves,
)
Progress-first text found r (inr o) = ([], append-nil found ∙ o.lines)

-- The reader as `_read_stream` sets it up over an open `trace_pipe` that holds `text`.
abbrev pub reader_on : Bytes → EventsWatch → Reader
reader_on text watch = record {
  pipe = record { opened = true; rest = text; eof = false };
  last_line = [];
  watch = watch;
}

-- Total correctness of the loop of `_read_stream`: with a round for each 1024 bytes and one more it
-- ends, for every text of less than 2 ^ 62 bytes in which no read ends one byte after a line end.
-- The lines of its bulks are then the lines of the text, each once and in order, the text behind
-- the last line end being the last line.
pub read_all-lines :
    (text : Bytes) (watch : EventsWatch) (fuel : ℕ)
    → NoLoneByte text
    → length text < 2 ^ 62
    → length text < fuel * read_buffer_size
    → (result : List EventsBulk × Reader) × ((read_all fuel (reader_on text watch) ≡ some result)
        × (lines_of result.0 ≡ complete [] (text ++ newline)))
unfolding complete remainder
read_all-lines text watch fuel lone short enough =
    let (result, (runs, _)) = read_all_ends fuel (reader_on text watch) refl refl enough in
    let before : Midway text [] [] (reader_on text watch) = record {
      opened = refl;
      runs = refl;
      halves = refl;
      rounds = (0, refl);
      held = refl;
      lines = refl;
    } in
    (
      result,
      (
        runs,
        (read_all_lines text lone short fuel [] (reader_on text watch) result.0 result.1
            (inl ([], before)) runs).lines,
      ),
    )

-- A full read whose text ends one byte after a line end: the next round starts with an empty
-- `last_line`, and the lines of the bulk are those before the byte, so it is in no line.
pub lone_byte_lost :
    (r : Reader) (c : ℕ)
    → r.pipe.opened ≡ true
    → r.pipe.eof ≡ false
    → read_buffer_size ≤ length r.pipe.rest
    → length r.last_line < 2 ^ 62
    → remainder [] (r.last_line ++ take read_buffer_size r.pipe.rest) ≡ c ∷ []
    → ((read_bulk read_buffer_size r).1.last_line ≡ [])
      × ((read_bulk read_buffer_size r).1.pipe.rest ≡ drop read_buffer_size r.pipe.rest)
      × (bulk_lines (read_bulk read_buffer_size r).0
          ≡ complete [] (r.last_line ++ take read_buffer_size r.pipe.rest))
unfolding read_bulk round_text
lone_byte_lost r c h e le short alone =
    let t = r.last_line ++ take read_buffer_size r.pipe.rest in
    let cut : IsSplit t [] (split_string t newline []) = split_string-IsSplit t [] (
      omega (
        arith,
        length-append r.last_line (take read_buffer_size r.pipe.rest),
        length-take read_buffer_size r.pipe.rest,
      )) in
    rw (chunk_full read_buffer_size r.pipe h le, e) (cut.rest ∙ ap carried alone, refl, cut.views)
