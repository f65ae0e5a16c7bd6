-- ===== src/Text/Fast.antt =====
-- What `split_fast` makes of a text whose delimiter is a line end.
use linux_sensors.Base.{
  ℕ, ◌+◌, ◌<◌, ◌≤◌, ◌^◌, ◌≡◌, ◌≢◌, ◌⊎◌, inl, inr, refl, ap, sym, ◌∙◌, List, [], ◌∷◌, ◌++◌, map,
  append-nil, append_assoc, Bytes, Bool-cases, ltb, ltb→lt, ltb-false→le, ◌==◌, if◌then◌else◌,
  length, take, drop, length-drop, take-of_le, lt→ltb, ap₂, zero, suc, All, Outcome, ok, undefined,
  ◌>>=◌, arith,
}
use linux_sensors.Text.{StringRef, end, view, delimited, copy_range, string_ref, split_fast}
use linux_sensors.Text.Completed.{complete, newline, remainder}
use linux_sensors.Text.Lines.{Delimited, delimited_lem}
use linux_sensors.Text.Tokens.{not_empty}

no_line : (xs cur : Bytes) → complete cur xs ≡ [] → remainder cur xs ≡ cur ++ xs
unfolding complete remainder
no_line [] cur h = sym (append-nil cur)
no_line (x ∷ xs) cur h = elim (Bool-cases (x == b'\n')) [
  | inl e ↦ absurd (ground arith)
  | inr e ↦ ground (arith, no_line xs (cur ++ x ∷ []), append_assoc cur (x ∷ []) xs)
]

-- Behind the last line end there is a rest, and before it a line: the last reference reaches outside.
last_outside :
    (text : Bytes) (prev : ℕ)
    → length text < 2 ^ 63
    → 0 < prev
    → prev < length text
    → string_ref text prev (length text) ≡ undefined
unfolding string_ref copy_range
last_outside text prev fits some_line inside = ground arith

last_whole :
    (text : Bytes)
    → length text < 2 ^ 63
    → string_ref text 0 (length text)
      ≡ ok (record { start = 0; size = length text; buffer = take (length text) text })
unfolding string_ref copy_range
last_whole text fits = ground arith

not_empty-only : (rest : Bytes) → 0 < length rest → not_empty (rest ∷ []) ≡ rest ∷ []
unfolding not_empty
not_empty-only [] h = absurd (omega arith)
not_empty-only (c ∷ cs) h = refl

none_before_start : (refs : List StringRef) → All (λ ref. end ref < 0) refs → refs ≡ []
none_before_start [] h = refl
none_before_start (ref ∷ refs) (h, hs) = absurd (omega (arith, h))

length-nil : (xs : Bytes) → length xs ≡ 0 → xs ≡ []
length-nil [] h = refl
length-nil (x ∷ xs) h = absurd (omega (arith, h))

-- The references, if there is no line or no rest; else nothing that is defined.
record IsFast (text : Bytes) (result : Outcome (List StringRef)) : Type 0 where
  outside : complete [] text ≢ [] → remainder [] text ≢ [] → result ≡ undefined
  inside :
      (complete [] text ≡ []) ⊎ (remainder [] text ≡ [])
      → (refs : List StringRef) × (result ≡ ok refs)
        × (map (view text) refs ≡ complete [] text ++ not_empty (remainder [] text ∷ []))

abbrev fast_result : Bytes → List StringRef × ℕ → Outcome (List StringRef)
fast_result text (strings, prev) =
    if ltb prev (length text)
    then (do last ← string_ref text prev (length text); ok (strings ++ last ∷ []))
    else ok strings

module _ (text : Bytes) (strings : List StringRef) (fits : length text < 2 ^ 63) where
  -- The text ends with a line end, or is empty.
  ends_at :
      (prev : ℕ) → Delimited text 0 [] strings prev → length text ≤ prev → IsFast text (ok strings)
  unfolding not_empty
  ends_at prev d le =
      let no_rest : remainder [] text ≡ [] =
        d.rest ∙ length-nil (drop prev text) (omega (arith, length-drop prev text)) in
      record {
        outside = λ some_line some_rest. absurd (some_rest no_rest);
        inside = λ _. (
          strings,
          refl,
          d.views
              ∙ sym (append-nil (complete [] text))
              ∙ ap (λ r. complete [] text ++ not_empty (r ∷ [])) (sym no_rest),
        );
      }

  -- There is no line end.
  ends_none :
      Delimited text 0 [] strings 0 → 0 < length text → IsFast text (fast_result text (strings, 0))
  unfolding not_empty
  ends_none d lt =
      let no_refs : strings ≡ [] = none_before_start strings d.within in
      let last : StringRef = record {
        start = 0;
        size = length text;
        buffer = take (length text) text;
      } in
      let no_lines : complete [] text ≡ [] = sym d.views ∙ ap (map (view text)) no_refs in
      let result : fast_result text (strings, 0) ≡ ok (strings ++ last ∷ []) =
        rw (lt→ltb 0 (length text) lt, last_whole text fits) refl in
      rw result (record {
        outside = λ some_line some_rest. absurd (some_line no_lines);
        inside = λ _. (
          strings ++ last ∷ [],
          refl,
          ap (λ t. map (view text) (t ++ last ∷ [])) no_refs
              ∙ ap (λ t. t ∷ []) (take-of_le (length text) text (omega arith))
              ∙ sym (not_empty-only text lt)
              ∙ ap₂ (λ l r. l ++ not_empty (r ∷ [])) (sym no_lines) (sym d.rest),
        );
      })

  -- There is a rest behind the last line end.
  ends_inside :
      (prev : ℕ)
      → Delimited text 0 [] strings prev
      → 0 < prev
      → prev < length text
      → IsFast text (fast_result text (strings, prev))
  ends_inside prev d some_line lt =
      let result : fast_result text (strings, prev) ≡ undefined =
        rw (lt→ltb prev (length text) lt, last_outside text prev fits some_line lt) refl in
      rw result (record {
        outside = λ _ _. refl;
        inside = λ e. absurd (elim e [
          | inl no_lines ↦
              let whole = sym d.rest ∙ no_line text [] no_lines in
              omega (arith, ap length whole, length-drop prev text)
          | inr no_rest ↦ omega (arith, ap length (sym d.rest ∙ no_rest), length-drop prev text)
        ]);
      })

  fast_result-IsFast :
      (prev : ℕ) → Delimited text 0 [] strings prev → IsFast text (fast_result text (strings, prev))
  fast_result-IsFast zero d = elim (Bool-cases (ltb 0 (length text))) [
    | inl e ↦ ends_none d (ltb→lt _ _ e)
    | inr e ↦
        let le : ¬ (0 < length text) = ltb-false→le _ _ e in rw e (ends_at 0 d (omega (arith, le)))
  ]
  fast_result-IsFast (suc prev) d = elim (Bool-cases (ltb (suc prev) (length text))) [
    | inl e ↦ ends_inside (suc prev) d (omega arith) (ltb→lt _ _ e)
    | inr e ↦
        let le : ¬ (suc prev < length text) = ltb-false→le _ _ e in
        rw e (ends_at (suc prev) d (omega (arith, le)))
  ]

-- The lines and the rest behind them, unless there are both.
abbrev pub lines_and_rest : List Bytes → Bytes → Outcome (List Bytes)
lines_and_rest lines [] = ok lines
lines_and_rest [] (c ∷ cs) = ok ((c ∷ cs) ∷ [])
lines_and_rest (line ∷ lines) (c ∷ cs) = undefined

views_of : Bytes → Outcome (List StringRef) → Outcome (List Bytes)
views_of text result = result >>= λ refs. ok (map (view text) refs)

IsFast-views :
    (text : Bytes) (result : Outcome (List StringRef))
    → IsFast text result
    → (lines : List Bytes) (rest : Bytes) → complete [] text ≡ lines
    → remainder [] text ≡ rest
    → views_of text result ≡ lines_and_rest lines rest
unfolding views_of not_empty
IsFast-views text result fast lines [] e f =
    let (refs, same, views) = fast.inside (inr f) in
    rw same (ap ok (views ∙ ap₂ (λ l r. l ++ not_empty (r ∷ [])) e f ∙ append-nil lines))
IsFast-views text result fast [] (c ∷ cs) e f =
    let (refs, same, views) = fast.inside (inl e) in
    rw same (ap ok (views ∙ ap₂ (λ l r. l ++ not_empty (r ∷ [])) e f))
IsFast-views text result fast (line ∷ lines) (c ∷ cs) e f =
    rw (fast.outside (λ g. cc (e, g)) (λ g. cc (f, g))) refl

-- For a text of less than 2 ^ 63 bytes, the references that `split_fast` makes at line ends stand for
-- the complete lines, in order, if the text ends with a line end or is empty, and for the whole text
-- if it has no line end; behind a line end anything more makes it undefined.
pub split_fast-lines :
    (text : Bytes)
    → length text < 2 ^ 63
    → (split_fast text newline >>= λ refs. ok (map (view text) refs))
      ≡ lines_and_rest (complete [] text) (remainder [] text)
unfolding split_fast views_of
split_fast-lines text fits =
    let r = delimited (length text + 2) text newline 0 [] in
    IsFast-views text (split_fast text newline)
      (fast_result-IsFast text r.0 fits r.1
        (delimited_lem (length text + 2) text 0 [] (omega arith) (omega arith) tt))
      (complete [] text) (remainder [] text) refl refl
