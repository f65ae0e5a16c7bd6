-- ===== src/Socket.antt =====
-- include/socket/linux_socket.h and linux_server_socket.h. What the system calls return is an
-- argument; the calls made are a list, in order.
pub mod Leaks
use linux_sensors.Base.{
  ℕ, zero, suc, ◌+◌, ◌*◌, ◌/◌, ◌%◌, List, [], ◌∷◌, ◌++◌, Bool, true, false, Bytes, ltb, ◌==◌,
  if◌then◌else◌, Outcome, ok, thrown, undefined, take,
}
use linux_sensors.Base.Int.{ℤ, pos, negsuc}

pub data Call : Type 0 where
  socket : Call
  connect : (id : ℤ) → (address : Bytes) → (port : ℕ) → Call
  bind : (id : ℤ) → (port : ℕ) → Call
  listen : (id : ℤ) → (backlog : ℕ) → Call
  accept : (id : ℤ) → Call
  close : (id : ℤ) → Call
  send : (id : ℤ) → (bytes : Bytes) → Call

-- The members of `class linux_socket`.
pub record LinuxSocket : Type 0 where
  pub socket_id : ℤ
  pub address : Bytes
  pub port : ℕ

-- `htons` on a little-endian machine, of the low 16 bits.
unfoldable pub htons : ℕ → ℕ
htons port = port % 256 * 256 + port / 256 % 256

abbrev pub is_negative : ℤ → Bool
is_negative (pos n) = false
is_negative (negsuc n) = true

abbrev pub is_zero : ℤ → Bool
is_zero (pos n) = n == 0
is_zero (negsuc n) = false

-- `connect`: the descriptor from `socket` is kept also where the connection fails.
unfoldable pub connect_client : ℤ → ℤ → LinuxSocket → Bool × LinuxSocket × List Call
unfolding htons
connect_client socket_reply connect_reply s =
    let s' = record s { socket_id = socket_reply } in
    let calls = socket ∷ connect socket_reply s.address (htons s.port) ∷ [] in
    if is_negative socket_reply
    then (false, s', socket ∷ [])
    else if is_zero connect_reply
    then (true, s', calls)
    else if is_zero socket_reply
    then (false, s', calls)
    else (false, s', calls ++ close socket_reply ∷ [])

unfoldable pub send_client : Bytes → LinuxSocket → List Call
send_client buffer s = send s.socket_id buffer ∷ []

-- `std::string(server_reply, server_reply + recv_size)` after a read into 1024 bytes.
abbrev pub reply_text : Bytes → ℤ → Outcome Bytes
reply_text server_reply (pos n) = if ltb 1024 n then undefined else ok (take n server_reply)
reply_text server_reply (negsuc n) = thrown

-- `receive` of the client: nothing if `read` returned less than 1.
unfoldable pub receive_client : Bytes → ℤ → Outcome Bytes
receive_client server_reply (pos zero) = ok []
receive_client server_reply (pos (suc n)) = reply_text server_reply (pos (suc n))
receive_client server_reply (negsuc n) = ok []

-- The members of `class linux_server_socket`.
pub record LinuxServerSocket : Type 0 where
  pub socket_id : ℤ
  pub client_id : ℤ
  pub address : Bytes
  pub port : ℕ

abbrev pub minus_one : ℤ → Bool
minus_one (pos n) = false
minus_one (negsuc n) = n == 0

unfoldable pub connect_server : ℤ → ℤ → LinuxServerSocket → Bool × LinuxServerSocket × List Call
unfolding htons
connect_server socket_reply connect_reply s =
    let s' = record s { socket_id = socket_reply } in
    let calls = socket ∷ connect socket_reply s.address (htons s.port) ∷ [] in
    if is_negative socket_reply
    then (false, s', socket ∷ [])
    else if is_zero connect_reply
    then (true, s', calls)
    else if is_zero socket_reply
    then (false, s', calls)
    else (false, s', calls ++ close s.client_id ∷ close socket_reply ∷ [])

-- What the calls of one `listen` return.
pub record ListenReplies : Type 0 where
  pub socket_reply : ℤ
  pub bind_reply : ℤ
  pub accept_reply : ℤ

-- `listen`: no way out closes a descriptor.
unfoldable pub listen_server :
    ListenReplies → LinuxServerSocket → Bool × LinuxServerSocket × List Call
unfolding htons
listen_server replies s =
    let s' = record s { socket_id = replies.socket_reply } in
    let bound = socket ∷ bind replies.socket_reply (htons s.port) ∷ [] in
    let accepted = bound ++ listen replies.socket_reply 3 ∷ accept replies.socket_reply ∷ [] in
    let s'' = record s' { client_id = replies.accept_reply } in
    if minus_one replies.socket_reply
    then (false, s', socket ∷ [])
    else if minus_one replies.bind_reply
    then (false, s', bound)
    else if minus_one replies.accept_reply
    then (false, s'', accepted)
    else (true, s'', accepted)

unfoldable pub close_server : LinuxServerSocket → List Call
close_server s = close s.client_id ∷ close s.socket_id ∷ []

-- `receive` of the server, which tests for less than -1: a failed `read` returns -1.
unfoldable pub receive_server : Bytes → ℤ → Outcome Bytes
receive_server server_reply (pos n) = reply_text server_reply (pos n)
receive_server server_reply (negsuc zero) = reply_text server_reply (negsuc zero)
receive_server server_reply (negsuc (suc n)) = ok []

unfoldable pub send_server : Bytes → LinuxServerSocket → List Call
send_server buffer s = send s.client_id buffer ∷ []

-- `while (!_socket.listen()) sleep_sec(1)`, over what the rounds' calls return: whether a round
-- succeeded, the socket, and the calls.
unfoldable pub listen_loop :
    List ListenReplies → LinuxServerSocket → Bool × LinuxServerSocket × List Call
unfolding listen_server
listen_loop [] s = (false, s, [])
listen_loop (replies ∷ later) s =
    let (done, s', calls) = listen_server replies s in
    let (done', s'', calls') = listen_loop later s' in
    elim done [ true ↦ (true, s', calls) | false ↦ (done', s'', calls ++ calls') ]
