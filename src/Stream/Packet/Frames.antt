-- ===== src/Stream/Packet/Frames.antt =====
-- What a receiver makes of the bytes that include/stream/socket_stream.h sends.
use linux_sensors.Base.{
  ℕ, ◌≡◌, ◌+◌, ◌*◌, ◌/◌, ◌%◌, ◌^◌, ◌<◌, ◌∷◌, ◌++◌, Bytes, Option, none, some, length, take, drop,
  All, take-append_length, drop-append_length, arith, ok, ap, ◌∙◌, Outcome,
}
use linux_sensors.Encoding.{base64_encode, base64_decode}
use linux_sensors.Encoding.RoundTrip.{IsByte, decode-encode, length-encode, base64_encode-encoded}
use linux_sensors.Stream.Packet.{big_endian, frame}

-- What a receiver makes of the decoded characters.
abbrev pub opened : Outcome Bytes → Bytes → Option (Bytes × Bytes)
opened (ok json) rest = some (json, rest)
opened _ rest = none

abbrev pub read_body : ℕ → Bytes → Option (Bytes × Bytes)
read_body n rest = opened (base64_decode (take n rest)) (drop n rest)

-- A receiver: a length in four bytes, the highest first, and as many characters in base64; and what
-- follows them.
abbrev pub read_frame : Bytes → Option (Bytes × Bytes)
read_frame (a ∷ b ∷ c ∷ d ∷ rest) = read_body (((a * 256 + b) * 256 + c) * 256 + d) rest
read_frame _ = none

four_bytes :
    (n : ℕ)
    → n < 2 ^ 32
    → ((n / 16777216 % 256 * 256 + n / 65536 % 256) * 256 + n / 256 % 256) * 256 + n % 256 ≡ n
four_bytes n h = omega arith

read_body-base64_encode :
    (json more : Bytes)
    → All IsByte json
    → length json < 1610612734
    → read_body (length (base64_encode json)) (base64_encode json ++ more) ≡ some (json, more)
read_body-base64_encode json more bytes short =
    let body = base64_encode json in
    ap (λ t. opened (base64_decode t) (drop (length body) (body ++ more)))
      (take-append_length body more)
    ∙ ap (λ t. opened (base64_decode body) t) (drop-append_length body more)
    ∙ ap (λ o. opened o more) (decode-encode json bytes short)

-- A receiver that reads a length and then as many characters gets back the JSON text of a packet, of
-- less than 2 ^ 30 bytes, and stands behind the packet, whatever was sent after it.
pub read_frame-frame :
    (json more : Bytes)
    → All IsByte json
    → length json < 2 ^ 30
    → read_frame (frame json ++ more) ≡ some (json, more)
unfolding frame big_endian
read_frame-frame json more bytes short =
    let body = base64_encode json in
    let same = base64_encode-encoded json (omega (arith, short)) in
    let fits : length body < 2 ^ 32 = omega (arith, ap length same, length-encode json, short) in
    ap (λ n. read_body n (body ++ more)) (four_bytes (length body) fits)
    ∙ read_body-base64_encode json more bytes (omega (arith, short))
