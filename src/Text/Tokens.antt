-- ===== src/Text/Tokens.antt =====
-- What `split3` makes of a text: the pieces between the delimiters that are not empty.
use linux_sensors.Base.{
  lengths, ℕ, zero, suc, ◌+◌, ◌-◌, ◌≤◌, ◌<◌, ◌≡◌, refl, ap, sym, ◌∙◌, List, [], ◌∷◌, ◌++◌, map,
  length-drop, map-append, append-nil, append_assoc, Bytes, Bool-cases, inl, inr, ◌==◌,
  if◌then◌else◌, length, take, drop, drop-drop, arith, ◌^◌, Outcome, ok,
}
use linux_sensors.Base.Int.{through_int}
use linux_sensors.Text.{
  StringRef, view, piece, State, in_space, in_token, tokens, split3, string_ref,
}

-- The pieces of a text between its delimiters, the empty ones too, with `cur` before the text.
unfoldable pub pieces : ℕ → Bytes → Bytes → List Bytes
pieces delimiter cur [] = cur ∷ []
pieces delimiter cur (c ∷ cs) =
    if c == delimiter then cur ∷ pieces delimiter [] cs else pieces delimiter (cur ++ c ∷ []) cs

unfoldable pub not_empty : List Bytes → List Bytes
not_empty [] = []
not_empty ([] ∷ words) = not_empty words
not_empty ((c ∷ cs) ∷ words) = (c ∷ cs) ∷ not_empty words

take_one_more :
    (k : ℕ) (text : Bytes) (c : ℕ) (cs : Bytes)
    → drop k text ≡ c ∷ cs
    → take (suc k) text ≡ take k text ++ c ∷ []
take_one_more zero [] c cs h = cc
take_one_more zero (x ∷ xs) c cs h = let same : x ≡ c = cc in ap (λ y. y ∷ []) same
take_one_more (suc k) [] c cs h = cc
take_one_more (suc k) (x ∷ xs) c cs h = ap (λ t. x ∷ t) (take_one_more k xs c cs h)

not_empty-some :
    (word : Bytes) (words : List Bytes)
    → 0 < length word
    → not_empty (word ∷ words) ≡ word ∷ not_empty words
unfolding not_empty
not_empty-some [] words h = absurd (omega arith)
not_empty-some (c ∷ cs) words h = refl

through_int-small : (n : ℕ) → n < 2 ^ 31 → through_int n ≡ n
through_int-small n h = ground arith

module _ (text : Bytes) (delimiter : ℕ) (short : length text < 2 ^ 31) where
  -- The words from a rest of the text on, behind a token of `k` characters from `token_begin` on.
  abbrev words_of : State → ℕ → ℕ → Bytes → List Bytes
  words_of in_space token_begin it rest = not_empty (pieces delimiter [] rest)
  words_of in_token token_begin it rest =
      not_empty (pieces delimiter (take (it - token_begin) (drop token_begin text)) rest)

  -- A token under way has a character.
  abbrev Begun : State → ℕ → ℕ → Type 0
  Begun in_space token_begin it = Unit
  Begun in_token token_begin it = (token_begin < it) × (it ≤ length text)

  abbrev word : ℕ → ℕ → Bytes
  word token_begin it = take (it - token_begin) (drop token_begin text)

  word_some :
      (token_begin it : ℕ) (words : List Bytes)
      → token_begin < it
      → it ≤ length text
      → not_empty (word token_begin it ∷ words) ≡ word token_begin it ∷ not_empty words
  word_some token_begin it words lt le = not_empty-some (word token_begin it) words (grind lengths)

  module _ (it c : ℕ) (cs : Bytes) (here : drop it text ≡ c ∷ cs) where
    drop_next : drop (it + 1) text ≡ cs
    drop_next = sym (drop-drop 1 it text) ∙ ap (drop 1) here

    inside : it < length text
    inside = omega (arith, length-drop it text, ap length here)

    word_grows :
        (token_begin : ℕ)
        → token_begin ≤ it
        → word token_begin (it + 1) ≡ word token_begin it ++ c ∷ []
    word_grows token_begin le =
        ap (λ k. take k (drop token_begin text)) {x = it + 1 - token_begin}
          {y = suc (it - token_begin)} (omega arith)
        ∙ take_one_more (it - token_begin) (drop token_begin text) c cs (
            drop-drop (it - token_begin) token_begin text
            ∙ ap (λ k. drop k text) {x = token_begin + (it - token_begin)} {y = it} (omega arith)
            ∙ here)

    word_first : word it (it + 1) ≡ c ∷ []
    word_first =
        word_grows it (omega arith)
        ∙ ap (λ k. take k (drop it text) ++ c ∷ []) {x = it - it} {y = 0} (omega arith)

  piece_out :
      (result : List StringRef) (token_begin it : ℕ) (words : List Bytes)
      → map (view text) (result ++ piece text token_begin it ∷ []) ++ words
        ≡ map (view text) result ++ (word token_begin it ∷ words)
  piece_out result token_begin it words =
      ap (λ t. t ++ words) (map-append (view text) result (piece text token_begin it ∷ []))
      ∙ append_assoc (map (view text) result) (word token_begin it ∷ []) words

  -- The size of a token that an `int` holds.
  last_ref :
      (token_begin it : ℕ)
      → token_begin < it
      → it ≤ length text
      → string_ref text token_begin (through_int (it - token_begin))
        ≡ ok (piece text token_begin it)
  unfolding string_ref
  last_ref token_begin it lt le =
      let same : through_int (it - token_begin) ≡ it - token_begin =
        through_int-small (it - token_begin) (omega (arith, short, lt, le)) in
      rw same (ground (arith, short, lt, le))

  -- An outcome with references that stand for these words.
  abbrev Holds : Outcome (List StringRef) → List Bytes → Type 0
  Holds o words = (refs : List StringRef) × (o ≡ ok refs) × (map (view text) refs ≡ words)

  tokens-words :
      (rest : Bytes) (it : ℕ) (state : State) (token_begin : ℕ) (result : List StringRef)
      → drop it text ≡ rest
      → Begun state token_begin it
      → Holds
          (tokens text delimiter rest it state token_begin result)
          (map (view text) result ++ words_of state token_begin it rest)
  unfolding tokens pieces not_empty
  tokens-words [] it in_space token_begin result at begun =
      (result, refl, sym (append-nil (map (view text) result)))
  tokens-words [] it in_token token_begin result at (lt, le) = (
    result ++ piece text token_begin it ∷ [],
    rw (last_ref token_begin it lt le) refl,
    sym (append-nil _)
        ∙ piece_out result token_begin it []
        ∙ ap (λ t. map (view text) result ++ t) (sym (word_some token_begin it [] lt le)),
  )
  tokens-words (c ∷ cs) it in_space token_begin result at begun =
      elim (Bool-cases (c == delimiter)) [
        | inl e ↦
            rw e (tokens-words cs (it + 1) in_space token_begin result (drop_next it c cs at) tt)
        | inr e ↦
            let (refs, same, words) =
              tokens-words cs (it + 1) in_token it result (drop_next it c cs at)
                (omega arith, omega (arith, inside it c cs at)) in
            rw e (
              refs,
              same,
              words
                  ∙ ap (λ w. map (view text) result ++ not_empty (pieces delimiter w cs))
                      (word_first it c cs at),
            )
      ]
  tokens-words (c ∷ cs) it in_token token_begin result at (lt, le) =
      elim (Bool-cases (c == delimiter)) [
        | inl e ↦
            let (refs, same, words) =
              tokens-words cs (it + 1) in_space token_begin
                (result ++ piece text token_begin it ∷ []) (drop_next it c cs at) tt in
            rw e (
              refs,
              same,
              words
                  ∙ piece_out result token_begin it (not_empty (pieces delimiter [] cs))
                  ∙ ap (λ t. map (view text) result ++ t)
                      (sym (word_some token_begin it (pieces delimiter [] cs) lt le)),
            )
        | inr e ↦
            let (refs, same, words) =
              tokens-words cs (it + 1) in_token token_begin result (drop_next it c cs at)
                (omega arith, omega (arith, inside it c cs at)) in
            rw e (
              refs,
              same,
              words
                  ∙ ap (λ w. map (view text) result ++ not_empty (pieces delimiter w cs))
                      (word_grows it c cs at token_begin (omega arith)),
            )
      ]

  -- On a text of less than 2 ^ 31 characters `split3` returns, and its references stand for the pieces
  -- of the text between the delimiters that are not empty, in order.
  pub split3-words :
      (refs : List StringRef) × (split3 text delimiter ≡ ok refs)
      × (map (view text) refs ≡ not_empty (pieces delimiter [] text))
  unfolding split3
  split3-words = tokens-words text 0 in_space 0 [] refl tt
