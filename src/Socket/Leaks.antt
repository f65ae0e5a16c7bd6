-- ===== src/Socket/Leaks.antt =====
-- The descriptors that the loop around `listen` of include/socket/linux_server_socket.h keeps.
use linux_sensors.Base.{ℕ, suc, ◌≡◌, List, [], ◌∷◌, ◌++◌, Bool, true, false, refl, ap, All, length}
use linux_sensors.Socket.{
  Call, socket, bind, close, LinuxServerSocket, ListenReplies, minus_one, htons, listen_server,
  listen_loop,
}

-- How often a descriptor is asked for, and how often one is given back.
abbrev pub opens : List Call → ℕ
opens [] = 0
opens (socket ∷ calls) = suc (opens calls)
opens (_ ∷ calls) = opens calls

abbrev pub closes : List Call → ℕ
closes [] = 0
closes (close id ∷ calls) = suc (closes calls)
closes (_ ∷ calls) = closes calls

-- The port is taken: `socket` gives a descriptor, `bind` fails.
abbrev pub IsTaken : ListenReplies → Type 0
IsTaken replies = (minus_one replies.socket_reply ≡ false) × (minus_one replies.bind_reply ≡ true)

listen_server-IsTaken :
    (replies : ListenReplies) (s : LinuxServerSocket)
    → IsTaken replies
    → listen_server replies s ≡ (
      false,
      record s { socket_id = replies.socket_reply },
      socket ∷ bind replies.socket_reply (htons s.port) ∷ [],
    )
unfolding listen_server
listen_server-IsTaken replies s (h, k) = rw (h, k) refl

round_on :
    (replies : ListenReplies) (rounds : List ListenReplies) (s : LinuxServerSocket)
    → IsTaken replies
    → let s' = record s { socket_id = replies.socket_reply } in
      let calls = socket ∷ bind replies.socket_reply (htons s.port) ∷ [] in
      listen_loop (replies ∷ rounds) s
      ≡ ((listen_loop rounds s').0, (listen_loop rounds s').1, calls ++ (listen_loop rounds s').2)
unfolding listen_loop
round_on replies rounds s h =
    ap
      (λ r. elim r.0 as (λ done. Bool × LinuxServerSocket × List Call) [
        | true ↦ (true, r.1, r.2)
        | false ↦ (
          (listen_loop rounds r.1).0,
          (listen_loop rounds r.1).1,
          r.2 ++ (listen_loop rounds r.1).2,
        )
      ])
      (listen_server-IsTaken replies s h)

-- While the port is taken, each round of the loop asks for one more descriptor, the loop goes on, and
-- no descriptor is given back.
pub listen_loop-IsTaken :
    (rounds : List ListenReplies) (s : LinuxServerSocket)
    → All IsTaken rounds
    → ((listen_loop rounds s).0 ≡ false)
      × (opens (listen_loop rounds s).2 ≡ length rounds)
      × (closes (listen_loop rounds s).2 ≡ 0)
listen_loop-IsTaken [] s h = unfold listen_loop in (refl, refl, refl)
listen_loop-IsTaken (replies ∷ rounds) s (h, hs) =
    let (a, b, c) = listen_loop-IsTaken rounds (record s { socket_id = replies.socket_reply }) hs in
    rw (round_on replies rounds s h) (a, ap suc b, c)
