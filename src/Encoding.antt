-- ===== src/Encoding.antt =====
-- include/utils/encoding.h: base64. `unsigned char` is a number below 256, `x >> k` is `x / 2 ^ k`
-- and `x << k` is `x * 2 ^ k`; a stored byte is taken mod 256.
pub mod Tables
pub mod RoundTrip
use Prim.Native.Nat.{bit_and}
use linux_sensors.Base.{
  ℕ, zero, suc, ◌+◌, ◌*◌, ◌/◌, ◌%◌, [], ◌∷◌, ◌++◌, Bool, Bytes, codes, leb, ◌==◌, ◌&&◌, not,
  if◌then◌else◌, ◌-◌, ◌^◌, true, ltb, length, take, Outcome, ok, undefined,
}
use mathlib.Core.Bool.{◌||◌}

-- `enum message_type`.
pub data MessageType : Type 0 where
  meta payload : MessageType

-- META = 1, DATA = 2
unfoldable pub message_code : MessageType → ℕ
message_code meta = 1
message_code payload = 2

abbrev pub base64_chars : Bytes
base64_chars = codes "ABCDEFGHIJKLMNOPQRSTUVWXYZabcdefghijklmnopqrstuvwxyz0123456789+/"

-- `isalnum(c) || c == '+' || c == '/'`, in the "C" locale.
unfoldable pub is_base64 : ℕ → Bool
is_base64 c =
    (leb b'0' c && leb c b'9')
    || ((leb b'A' c && leb c b'Z') || (leb b'a' c && leb c b'z'))
    || (c == b'+')
    || (c == b'/')

char_at : Bytes → ℕ → ℕ
char_at [] k = 0
char_at (c ∷ cs) zero = c
char_at (c ∷ cs) (suc k) = char_at cs k

-- `base64_chars[k]`
unfoldable pub digit : ℕ → ℕ
unfolding char_at
digit k = char_at base64_chars k

position : Bytes → ℕ → ℕ → ℕ
position [] i c = 255
position (d ∷ ds) i c = if d == c then i else position ds (i + 1) c

-- `base64_chars.find(c)` stored in an unsigned char; npos becomes 255.
unfoldable pub digit_value : ℕ → ℕ
unfolding position
digit_value c = position base64_chars 0 c

-- The four indices that three bytes spell.
unfoldable pub group_0 : ℕ → ℕ
group_0 a = bit_and a 0xfc / 4

unfoldable pub group_1 : ℕ → ℕ → ℕ
group_1 a b = (bit_and a 0x03 * 16 + bit_and b 0xf0 / 16) % 256

unfoldable pub group_2 : ℕ → ℕ → ℕ
group_2 b c = (bit_and b 0x0f * 4 + bit_and c 0xc0 / 64) % 256

unfoldable pub group_3 : ℕ → ℕ
group_3 c = bit_and c 0x3f

-- The bytes of an array that are filled so far: `i` is their number.
pub data Filled : Type 0 where
  none_yet : Filled
  one : ℕ → Filled
  two : ℕ → ℕ → Filled
  three : ℕ → ℕ → ℕ → Filled

-- What follows the loop of `base64_encode`: the bytes missing from the last group are 0.
unfoldable pub encode_rest : Filled → Bytes
unfolding digit group_0 group_1 group_2
encode_rest (one a) = digit (group_0 a) ∷ digit (group_1 a 0) ∷ b'=' ∷ b'=' ∷ []
encode_rest (two a b) = digit (group_0 a) ∷ digit (group_1 a b) ∷ digit (group_2 b 0) ∷ b'=' ∷ []
encode_rest _ = []

-- The loop of `base64_encode`. A third byte completes a group, so `three` does not occur.
unfoldable pub encode_loop : Bytes → Filled → Bytes → Bytes
unfolding encode_rest group_3
encode_loop [] filled ret = ret ++ encode_rest filled
encode_loop (c ∷ cs) none_yet ret = encode_loop cs (one c) ret
encode_loop (c ∷ cs) (one a) ret = encode_loop cs (two a c) ret
encode_loop (c ∷ cs) (two a b) ret =
    encode_loop cs none_yet (
      ret ++ digit (group_0 a) ∷ digit (group_1 a b) ∷ digit (group_2 b c) ∷ digit (group_3 c) ∷ [])
encode_loop (c ∷ cs) (three a b d) ret = ret

-- The length of the bytes is an argument of type `unsigned int`, of 32 bits.
unfoldable pub base64_encode : Bytes → Bytes
unfolding encode_loop
base64_encode bytes = encode_loop (take (length bytes % 2 ^ 32) bytes) none_yet []

-- The three bytes that four indices spell.
unfoldable pub byte_0 : ℕ → ℕ → ℕ
byte_0 p q = (p * 4 + bit_and q 0x30 / 16) % 256

unfoldable pub byte_1 : ℕ → ℕ → ℕ
byte_1 q r = (bit_and q 0x0f * 16 + bit_and r 0x3c / 4) % 256

unfoldable pub byte_2 : ℕ → ℕ → ℕ
byte_2 r s = (bit_and r 0x03 * 64 + s) % 256

-- What follows the loop of `base64_decode`: the characters that are missing are 0, looked up too.
unfoldable pub decode_rest : Filled → Bytes
unfolding digit_value byte_0 byte_1
decode_rest none_yet = []
decode_rest (one p) = []
decode_rest (two p q) = byte_0 (digit_value p) (digit_value q) ∷ []
decode_rest (three p q r) =
    byte_0 (digit_value p) (digit_value q) ∷ byte_1 (digit_value q) (digit_value r) ∷ []

-- The loop of `base64_decode` over the characters that are left.
unfoldable pub decode_loop : Bytes → Filled → Bytes → Bytes
unfolding decode_rest byte_2 is_base64
decode_loop [] filled ret = ret ++ decode_rest filled
decode_loop (c ∷ cs) none_yet ret =
    let more = decode_loop cs (one c) ret in
    if not (c == b'=') && is_base64 c then more else ret ++ decode_rest none_yet
decode_loop (c ∷ cs) (one p) ret =
    let more = decode_loop cs (two p c) ret in
    if not (c == b'=') && is_base64 c then more else ret ++ decode_rest (one p)
decode_loop (c ∷ cs) (two p q) ret =
    let more = decode_loop cs (three p q c) ret in
    if not (c == b'=') && is_base64 c then more else ret ++ decode_rest (two p q)
decode_loop (c ∷ cs) (three p q r) ret =
    let group =
      byte_0 (digit_value p) (digit_value q)
      ∷ byte_1 (digit_value q) (digit_value r)
      ∷ byte_2 (digit_value r) (digit_value c)
      ∷ [] in
    let more = decode_loop cs none_yet (ret ++ group) in
    if not (c == b'=') && is_base64 c then more else ret ++ decode_rest (three p q r)

-- Whether the `while` of `base64_decode` goes on over all these characters.
unfoldable pub goes_on : Bytes → Bool
unfolding is_base64
goes_on [] = true
goes_on (c ∷ cs) = (not (c == b'=') && is_base64 c) && goes_on cs

-- `int in_len = size()` keeps 32 bits. A negative count does not end the loop, which ends at a
-- character that is not in the alphabet, or by an overflow of `in_len--`.
unfoldable pub base64_decode : Bytes → Outcome Bytes
unfolding decode_loop goes_on
base64_decode text =
    let n = length text % 2 ^ 32 in
    if ltb n 2147483648
    then ok (decode_loop (take n text) none_yet [])
    else if goes_on (take (n - 2147483648) text)
    then undefined
    else ok (decode_loop text none_yet [])
