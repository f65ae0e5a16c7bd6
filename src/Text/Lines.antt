-- ===== src/Text/Lines.antt =====
-- What `split_string` makes of a text whose delimiter is a line end: the complete lines, and the
-- rest for the next call.
use linux_sensors.Base.{
  ℕ, zero, suc, ◌+◌, ◌-◌, ◌≤◌, ◌<◌, ◌^◌, ◌≡◌, refl, ap, ap₂, sym, ◌∙◌, List, [], ◌∷◌, ◌++◌, map,
  map-append, append-nil, append_assoc, none, some, Bytes, Bool-cases, Option-cases, inl, inr, ltb,
  ◌==◌, if◌then◌else◌, length, take, drop, slice-take, drop-drop, length-drop, length-take, ltb→lt,
  ltb-false→le, ◌≢◌, All, All-append, All-mono, arith,
}
use linux_sensors.Text.{
  StringRef, end, view, piece, find, find_here, delimited, Split, split_string, split_result,
  last_index,
}
use linux_sensors.Text.Completed.{complete, newline, remainder}

find_none :
    (rest cur : Bytes) (i : ℕ)
    → find_here newline rest i ≡ none
    → (complete cur rest ≡ []) × (remainder cur rest ≡ cur ++ rest)
unfolding find_here complete remainder
find_none [] cur i h = (refl, sym (append-nil cur))
find_none (c ∷ cs) cur i h =
    ground (arith, find_none cs (cur ++ c ∷ []) (i + 1), append_assoc cur (c ∷ []) cs)

-- A line end found at `i + k`, where `i` is the offset of `rest`.
record Found (rest cur : Bytes) (i p : ℕ) : Type 0 where
  k : ℕ
  at_offset : p ≡ i + k
  inside : k < length rest
  cuts : complete cur rest ≡ (cur ++ take k rest) ∷ complete [] (drop (suc k) rest)
  leaves : remainder cur rest ≡ remainder [] (drop (suc k) rest)

find_some : (rest cur : Bytes) (i p : ℕ) → find_here newline rest i ≡ some p → Found rest cur i p
unfolding find_here complete remainder
find_some [] cur i p h = cc
find_some (c ∷ cs) cur i p h = elim (Bool-cases (c == b'\n')) [
  | inl e ↦ record {
    k = 0;
    at_offset = ground arith;
    inside = omega arith;
    cuts = rw (e, append-nil cur) refl;
    leaves = rw e refl;
  }
  | inr e ↦
      let f = find_some cs (cur ++ c ∷ []) (i + 1) p (ground arith) in
      record {
        k = suc f.k;
        at_offset = omega (arith, f.at_offset);
        inside = omega (arith, f.inside);
        cuts = rw e (
            f.cuts
            ∙ ap (λ t. t ∷ complete [] (drop (suc f.k) cs))
                (append_assoc cur (c ∷ []) (take f.k cs)));
        leaves = rw e f.leaves;
      }
]

-- What the loop of the splitters leaves from `prev` on, if it has rounds enough.
pub record Delimited (text : Bytes) (prev : ℕ) (acc result : List StringRef) (stop : ℕ)
    : Type 0 where
  pub views : map (view text) result ≡ map (view text) acc ++ complete [] (drop prev text)
  pub rest : remainder [] (drop prev text) ≡ drop stop text
  pub bound : stop ≤ length text
  pub within : All (λ ref. end ref < stop) result

find-drop :
    (text : Bytes) (prev : ℕ)
    → prev ≤ length text
    → find text newline prev ≡ find_here newline (drop prev text) prev
unfolding find
find-drop text prev h = ground arith

module _ (fuel : ℕ) (text : Bytes) (prev : ℕ) (acc : List StringRef) (h : prev ≤ length text) where
  delimited_stop :
      find_here newline (drop prev text) prev ≡ none
      → delimited (suc fuel) text newline prev acc ≡ (acc, prev)
  unfolding delimited
  delimited_stop e = rw (find-drop text prev h ∙ e, delimited) refl

  delimited_go :
      (p : ℕ)
      → find_here newline (drop prev text) prev ≡ some p
      → delimited (suc fuel) text newline prev acc
        ≡ delimited fuel text newline (p + 1) (acc ++ piece text prev p ∷ [])
  unfolding delimited
  delimited_go p e = rw (find-drop text prev h ∙ e, delimited) refl

there :
    (text : Bytes) {prev p : ℕ} (f : Found (drop prev text) [] prev p)
    → drop (suc f.k) (drop prev text) ≡ drop (p + 1) text
there text {prev} {p} f =
    drop-drop (suc f.k) prev text
    ∙ ap (λ t. drop t text) {x = prev + suc f.k} {y = p + 1} (omega (arith, f.at_offset))

-- One more line is cut off.
view-piece :
    (text : Bytes) (prev p : ℕ) (acc : List StringRef) (f : Found (drop prev text) [] prev p)
    → map (view text) (acc ++ piece text prev p ∷ []) ++ complete [] (drop (p + 1) text)
      ≡ map (view text) acc ++ complete [] (drop prev text)
view-piece text prev p acc f =
    let size : p - prev ≡ f.k = omega (arith, f.at_offset) in
    rw (map-append, append_assoc, f.cuts, there text f, size)

abbrev pub ResultOf : List StringRef × ℕ → Bytes → ℕ → List StringRef → Type 0
ResultOf r text prev acc = Delimited text prev acc r.0 r.1

pub delimited_lem :
    (fuel : ℕ) (text : Bytes) (prev : ℕ) (acc : List StringRef)
    → prev ≤ length text
    → length text < fuel + prev
    → All (λ ref. end ref < prev) acc
    → ResultOf (delimited fuel text newline prev acc) text prev acc
delimited_lem zero text prev acc h hf ha = absurd (omega arith)
delimited_lem (suc fuel) text prev acc h hf ha =
    elim (Option-cases (find_here newline (drop prev text) prev)) [
      | inl e ↦
          let (cuts, leaves) = find_none (drop prev text) [] prev e in
          rw (delimited_stop fuel text prev acc h e)
            (record { views = rw (cuts, append-nil); rest = leaves; bound = h; within = ha })
      | inr (p, e) ↦
          let f = find_some (drop prev text) [] prev p e in
          let ih =
            delimited_lem fuel text (p + 1) (acc ++ piece text prev p ∷ [])
              (omega (arith, f.at_offset, f.inside, length-drop prev text))
              (omega (arith, f.at_offset))
              (All-append (λ r. end r < p + 1) acc (piece text prev p ∷ [])
                (All-mono (λ r. end r < prev) (λ r. end r < p + 1)
                  (λ r lt. omega (arith, f.at_offset)) acc ha)
                (omega (arith, f.at_offset))) in
          rw (delimited_go fuel text prev acc h p e) (record {
            views = ih.views ∙ view-piece text prev p acc f;
            rest = f.leaves ∙ ap (remainder []) (there text f) ∙ ih.rest;
            bound = ih.bound;
            within = ih.within;
          })
    ]

-- What is kept for the next call of the rest behind the last line end: not a rest of one byte.
abbrev pub carried : Bytes → Bytes
carried rest = if length rest == 1 then [] else rest

pub carried_keep : (rest : Bytes) → length rest ≢ 1 → carried rest ≡ rest
carried_keep rest h = ground arith

carried_drop : (rest : Bytes) → length rest ≤ 1 → carried rest ≡ []
carried_drop [] h = refl
carried_drop (c ∷ cs) h = ground arith

views_within :
    (text : Bytes) (stop : ℕ) (refs : List StringRef)
    → All (λ ref. end ref < stop) refs
    → map (view (take stop text)) refs ≡ map (view text) refs
views_within text stop [] h = refl
views_within text stop (ref ∷ refs) (h, hs) =
    ap₂ ◌∷◌ (slice-take text ref.start ref.size stop (omega arith)) (views_within text stop refs hs)

-- What a splitter's result says of the text that it was given.
pub record IsSplit (text last_line : Bytes) (split : Split) : Type 0 where
  pub views : map (view split.text) split.lines ≡ complete [] text
  pub rest : split.last_line ≡ last_line ++ carried (remainder [] text)
  pub within : All (λ ref. end ref < length split.text) split.lines
  pub kept : length split.text ≤ length text

IsSplit-cases :
    (text last_line : Bytes) (r : List StringRef × ℕ)
    → length text < 2 ^ 63
    → ResultOf r text 0 []
    → IsSplit text last_line (split_result text last_line r)
IsSplit-cases text last_line (strings, prev) fits d =
    elim (Bool-cases (ltb prev (last_index text))) [
      | inl e ↦
          let many : length (drop prev text) ≢ 1 =
            omega (arith, ltb→lt _ _ e, length-drop prev text, d.bound) in
          rw e (record {
            views = views_within text prev strings d.within ∙ d.views;
            rest =
                ap (λ t. last_line ++ t)
                  (sym (ap carried d.rest ∙ carried_keep (drop prev text) many));
            within =
                All-mono (λ ref. end ref < prev) (λ ref. end ref < length (take prev text))
                  (λ ref lt. omega (arith, length-take prev text, d.bound)) strings d.within;
            kept = omega (arith, length-take prev text);
          })
      | inr e ↦ rw e (record {
        views = d.views;
        rest = sym (
            ap (λ t. last_line ++ t)
              (ap carried d.rest
                ∙ carried_drop (drop prev text) (
                    let few : ¬ (prev < last_index text) = ltb-false→le _ _ e in
                    omega (arith, length-drop prev text, d.bound, few)))
            ∙ append-nil last_line);
        within =
            All-mono (λ ref. end ref < prev) (λ ref. end ref < length text)
              (λ ref lt. omega (arith, d.bound)) strings d.within;
        kept = omega arith;
      })
    ]

-- For a text of less than 2 ^ 63 bytes, `split_string` at line ends makes a reference to each
-- complete line, and no other, in order; each lies inside the string that is kept, with its line
-- end. It appends the rest behind the last line end to `last_line`, unless that is one byte long:
-- then it appends nothing.
pub split_string-IsSplit :
    (text last_line : Bytes)
    → length text < 2 ^ 63
    → IsSplit text last_line (split_string text newline last_line)
unfolding split_string
split_string-IsSplit text last_line fits =
    IsSplit-cases text last_line (delimited (length text + 2) text newline 0 []) fits
      (delimited_lem (length text + 2) text 0 [] (omega arith) (omega arith) tt)
