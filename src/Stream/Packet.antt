-- ===== src/Stream/Packet.antt =====
-- include/stream/socket_stream.h: packs as JSON, in base64, behind their length in four bytes.
pub mod Frames
use linux_sensors.Base.{ℕ, ◌/◌, ◌%◌, List, [], ◌∷◌, ◌++◌, Bytes, codes, length}
use linux_sensors.Base.Int.{pos}
use linux_sensors.Number.{to_string}
use linux_sensors.Encoding.{base64_encode}
use linux_sensors.Os.{c_string}
use linux_sensors.Socket.{LinuxSocket, Call, send_client}
use linux_sensors.Trace.{SysParamsRecord}

-- The loop of `to_json`: the records in parentheses, with a comma between two.
unfoldable pub records_json : (SysParamsRecord → Bytes) → List SysParamsRecord → Bytes
records_json print [] = []
records_json print (r ∷ []) = codes "(" ++ print r ++ codes ")"
records_json print (r ∷ s ∷ records) =
    (codes "(" ++ print r ++ codes ")" ++ codes ",") ++ records_json print (s ∷ records)

-- `to_json` at `now` milliseconds: the text up to its first NUL.
unfoldable pub to_json : (SysParamsRecord → Bytes) → Bytes → ℕ → List SysParamsRecord → Bytes
unfolding records_json c_string
to_json print meta now records = c_string (
    codes "{ \"sensor_info\": \""
    ++ meta
    ++ codes "\","
    ++ codes "\"timestamp\": \""
    ++ to_string (pos now)
    ++ codes "\","
    ++ codes "\"syscalls\":["
    ++ records_json print records
    ++ codes "]}"
    ++ 0 ∷ [])

-- The four bytes of `htonl(n)`, the highest first.
unfoldable pub big_endian : ℕ → Bytes
big_endian n = n / 16777216 % 256 ∷ n / 65536 % 256 ∷ n / 256 % 256 ∷ n % 256 ∷ []

-- What `dispatch` sends for a JSON text.
unfoldable pub frame : Bytes → Bytes
unfolding big_endian
frame json = let body = base64_encode json in big_endian (length body) ++ body

unfoldable pub socket_dispatch :
    (SysParamsRecord → Bytes) → Bytes → ℕ → LinuxSocket → List SysParamsRecord → List Call
unfolding frame to_json
socket_dispatch print sensor_info now s records =
    send_client (frame (to_json print sensor_info now records)) s
