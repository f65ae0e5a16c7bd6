-- ===== src/Encoding/RoundTrip.antt =====
-- `base64_decode` undoes `base64_encode`, and the length of an encoding.
use linux_sensors.Base.{
  ℕ, ◌+◌, ◌*◌, ◌/◌, ◌<◌, ◌≡◌, refl, ap, sym, ◌∙◌, [], ◌∷◌, ◌++◌, append-nil, append_assoc, Bytes,
  length, All, arith, take-of_le, lt→ltb, ◌^◌, ◌%◌, ok,
}
use linux_sensors.Encoding.{
  digit, digit_value, group_0, group_1, group_2, group_3, byte_0, byte_1, byte_2, Filled, none_yet,
  one, two, three, encode_rest, encode_loop, base64_encode, decode_rest, decode_loop, base64_decode,
}
use linux_sensors.Encoding.Tables.{
  digit_value-digit, accepts-digit, group_0_lem, group_1_lem, group_2_lem, group_3_lem,
  byte_0-groups, byte_1-groups, byte_2-groups,
}

-- A char of the program as a number.
abbrev pub IsByte : ℕ → Type 0
IsByte c = c < 256

-- The four characters for three bytes.
abbrev quad : ℕ → ℕ → ℕ → Bytes
quad a b c = digit (group_0 a) ∷ digit (group_1 a b) ∷ digit (group_2 b c) ∷ digit (group_3 c) ∷ []

encode_loop_out :
    (bytes : Bytes) (filled : Filled) (ret : Bytes)
    → encode_loop bytes filled ret ≡ ret ++ encode_loop bytes filled []
unfolding encode_loop
encode_loop_out [] filled ret = refl
encode_loop_out (c ∷ cs) none_yet ret = encode_loop_out cs (one c) ret
encode_loop_out (c ∷ cs) (one a) ret = encode_loop_out cs (two a c) ret
encode_loop_out (c ∷ cs) (two a b) ret =
    encode_loop_out cs none_yet (ret ++ quad a b c)
    ∙ append_assoc ret (quad a b c) (encode_loop cs none_yet [])
    ∙ ap (λ t. ret ++ t) (sym (encode_loop_out cs none_yet (quad a b c)))
encode_loop_out (c ∷ cs) (three a b d) ret = sym (append-nil ret)

-- The encoding, for a length that an `unsigned int` holds.
abbrev pub encoded : Bytes → Bytes
encoded bytes = encode_loop bytes none_yet []

-- Three bytes make four characters, whatever follows.
encode_three : (a b c : ℕ) (rest : Bytes) → encoded (a ∷ b ∷ c ∷ rest) ≡ quad a b c ++ encoded rest
unfolding encode_loop
encode_three a b c rest = encode_loop_out rest none_yet (quad a b c)

-- One round of the decoder on a character of the alphabet.
module _ (k : ℕ) (hk : k < 64) (rest ret : Bytes) where
  decode_first : decode_loop (digit k ∷ rest) none_yet ret ≡ decode_loop rest (one (digit k)) ret
  unfolding decode_loop
  decode_first = ground (arith, accepts-digit k hk)

  decode_second :
      (p : ℕ) → decode_loop (digit k ∷ rest) (one p) ret ≡ decode_loop rest (two p (digit k)) ret
  unfolding decode_loop
  decode_second p = ground (arith, accepts-digit k hk)

  decode_third :
      (p q : ℕ)
      → decode_loop (digit k ∷ rest) (two p q) ret ≡ decode_loop rest (three p q (digit k)) ret
  unfolding decode_loop
  decode_third p q = ground (arith, accepts-digit k hk)

  decode_fourth :
      (p q r : ℕ)
      → decode_loop (digit k ∷ rest) (three p q r) ret
        ≡ decode_loop rest none_yet (
            ret
            ++ byte_0 (digit_value p) (digit_value q)
              ∷ byte_1 (digit_value q) (digit_value r)
              ∷ byte_2 (digit_value r) (digit_value (digit k))
              ∷ [])
  unfolding decode_loop
  decode_fourth p q r = ground (arith, accepts-digit k hk)

-- The padding ends the decoder's loop.
decode_padding :
    (filled : Filled) (rest ret : Bytes)
    → decode_loop (b'=' ∷ rest) filled ret ≡ ret ++ decode_rest filled
unfolding decode_loop
decode_padding none_yet rest ret = refl
decode_padding (one p) rest ret = refl
decode_padding (two p q) rest ret = refl
decode_padding (three p q r) rest ret = refl

module _ (a b c : ℕ) (ha : IsByte a) (hb : IsByte b) (hc : IsByte c) where
  group_0-lt : group_0 a < 64
  group_0-lt = omega (arith, group_0_lem a ha)

  group_1-lt : group_1 a b < 64
  group_1-lt = omega (arith, group_1_lem a b ha hb)

  group_2-lt : group_2 b c < 64
  group_2-lt = omega (arith, group_2_lem b c hb hc)

  group_3-lt : group_3 c < 64
  group_3-lt = omega (arith, group_3_lem c hc)

  -- Three characters are read into the array.
  decode_three :
      (rest ret : Bytes)
      → decode_loop
          (digit (group_0 a) ∷ digit (group_1 a b) ∷ digit (group_2 b c) ∷ rest)
          none_yet
          ret
        ≡ decode_loop rest
            (three (digit (group_0 a)) (digit (group_1 a b)) (digit (group_2 b c)))
            ret
  decode_three rest ret =
      decode_first (group_0 a) group_0-lt _ ret
      ∙ decode_second (group_1 a b) group_1-lt _ ret _
      ∙ decode_third (group_2 b c) group_2-lt rest ret _ _

  decode_quad :
      (rest ret : Bytes)
      → decode_loop (quad a b c ++ rest) none_yet ret
        ≡ decode_loop rest none_yet (ret ++ a ∷ b ∷ c ∷ [])
  decode_quad rest ret =
      decode_three _ ret
      ∙ decode_fourth (group_3 c) group_3-lt rest ret _ _ _
      ∙ rw (
        digit_value-digit (group_0 a) group_0-lt,
        digit_value-digit (group_1 a b) group_1-lt,
        digit_value-digit (group_2 b c) group_2-lt,
        digit_value-digit (group_3 c) group_3-lt,
        byte_0-groups a b ha hb,
        byte_1-groups a b c ha hb hc,
        byte_2-groups b c hb hc,
      )

-- The last group, of one or two bytes.
encode_one : (a : ℕ) → encoded (a ∷ []) ≡ digit (group_0 a) ∷ digit (group_1 a 0) ∷ b'=' ∷ b'=' ∷ []
unfolding encode_loop encode_rest
encode_one a = refl

encode_two :
    (a b : ℕ)
    → encoded (a ∷ b ∷ [])
      ≡ digit (group_0 a) ∷ digit (group_1 a b) ∷ digit (group_2 b 0) ∷ b'=' ∷ []
unfolding encode_loop encode_rest
encode_two a b = refl

decode_one :
    (a : ℕ) (ret : Bytes) → IsByte a → decode_loop (encoded (a ∷ [])) none_yet ret ≡ ret ++ a ∷ []
unfolding decode_rest
decode_one a ret ha = rw (
  encode_one a,
  decode_first (group_0 a) (group_0-lt a 0 0 ha (omega arith) (omega arith)) _ ret,
  decode_second (group_1 a 0) (group_1-lt a 0 0 ha (omega arith) (omega arith)) _ ret _,
  decode_padding,
  digit_value-digit (group_0 a) (group_0-lt a 0 0 ha (omega arith) (omega arith)),
  digit_value-digit (group_1 a 0) (group_1-lt a 0 0 ha (omega arith) (omega arith)),
  byte_0-groups a 0 ha (omega arith),
)

decode_two :
    (a b : ℕ) (ret : Bytes)
    → IsByte a
    → IsByte b
    → decode_loop (encoded (a ∷ b ∷ [])) none_yet ret ≡ ret ++ a ∷ b ∷ []
unfolding decode_rest
decode_two a b ret ha hb = rw (
  encode_two a b,
  decode_three a b 0 ha hb (omega arith) _ ret,
  decode_padding,
  digit_value-digit (group_0 a) (group_0-lt a b 0 ha hb (omega arith)),
  digit_value-digit (group_1 a b) (group_1-lt a b 0 ha hb (omega arith)),
  digit_value-digit (group_2 b 0) (group_2-lt a b 0 ha hb (omega arith)),
  byte_0-groups a b ha hb,
  byte_1-groups a b 0 ha hb (omega arith),
)

decode_loop-encode :
    (bytes ret : Bytes) → All IsByte bytes → decode_loop (encoded bytes) none_yet ret ≡ ret ++ bytes
decode_loop-encode [] ret h = unfold encode_loop encode_rest decode_loop decode_rest in refl
decode_loop-encode (a ∷ []) ret (ha, _) = decode_one a ret ha
decode_loop-encode (a ∷ b ∷ []) ret (ha, (hb, _)) = decode_two a b ret ha hb
decode_loop-encode (a ∷ b ∷ c ∷ rest) ret (ha, (hb, (hc, hs))) =
    rw (encode_three a b c rest, decode_quad a b c ha hb hc _ ret)
      (decode_loop-encode rest (ret ++ a ∷ b ∷ c ∷ []) hs ∙ append_assoc ret (a ∷ b ∷ c ∷ []) rest)

-- The encoding of n bytes has 4 * ((n + 2) / 3) characters.
pub length-encode : (bytes : Bytes) → length (encoded bytes) ≡ 4 * ((length bytes + 2) / 3)
length-encode [] = unfold encode_loop encode_rest in omega arith
length-encode (a ∷ []) = ap length (encode_one a) ∙ omega arith
length-encode (a ∷ b ∷ []) = ap length (encode_two a b) ∙ omega arith
length-encode (a ∷ b ∷ c ∷ rest) =
    omega (arith, ap length (encode_three a b c rest), length-encode rest)

pub base64_encode-encoded :
    (bytes : Bytes) → length bytes < 2 ^ 32 → base64_encode bytes ≡ encoded bytes
unfolding base64_encode
base64_encode-encoded bytes h =
    ap encoded (take-of_le (length bytes % 2 ^ 32) bytes (omega (arith, h)))

base64_decode-small :
    (text : Bytes) → length text < 2 ^ 31 → base64_decode text ≡ ok (decode_loop text none_yet [])
unfolding base64_decode
base64_decode-small text h =
    let same : length text % 2 ^ 32 ≡ length text = omega (arith, h) in
    rw (same, lt→ltb (length text) 2147483648 (omega (arith, h)))
      (ap (λ t. ok (decode_loop t none_yet [])) (take-of_le (length text) text (omega arith)))

-- `base64_decode` gives back every string of bytes that `base64_encode` was given, if the encoding has
-- less than 2 ^ 31 characters: that is, of less than 1610612734 bytes.
pub decode-encode :
    (bytes : Bytes)
    → All IsByte bytes
    → length bytes < 1610612734
    → base64_decode (base64_encode bytes) ≡ ok bytes
decode-encode bytes h short =
    ap base64_decode (base64_encode-encoded bytes (omega (arith, short)))
    ∙ base64_decode-small (encoded bytes) (omega (arith, short, length-encode bytes))
    ∙ ap ok (decode_loop-encode bytes [] h)
