-- ===== src/Udp/Tests.antt =====
-- The theorems about src/socket.c and src/main.c with a peer that fills the buffer.
use bbg_vo_ip.Prelude.{
  ℕ, ◌≡◌, refl, inr, List, [], ◌∷◌, some, arith, before, length, length-replicate, replicate, true,
  false,
}
use bbg_vo_ip.Prelude.Int.{pos}
use bbg_vo_ip.Sys.{ok, recv_from, send_to, close}
use bbg_vo_ip.World.{World}
use bbg_vo_ip.Testing.{eager, quiet}
use bbg_vo_ip.Udp.{receive_through_udp_server}
use bbg_vo_ip.Udp.Message.{Replies, incoming, receive_through_udp_server_lem}
use bbg_vo_ip.Udp.Echo.{main, buffer_len}
use bbg_vo_ip.Udp.Echo.Answer.{listening, sent_back, main_lem}

eager-Replies : Replies eager
eager-Replies log sock n = inr (n, refl, omega arith, length-replicate n 7)

abbrev open_socket : World
open_socket = record quiet { udp = record { initialized = true; socket_descriptor = pos 3 } }

receive_through_udp_server_lem_example :
    (b : List ℕ) × (receive_through_udp_server eager (some (1 ∷ 1 ∷ 1 ∷ [])) 3 open_socket
      ≡ (ok ([], b), record open_socket { log = (recv_from (pos 3) 3, pos 3) ∷ [] }))
    × (before 0 b ≡ before 0 (7 ∷ 7 ∷ []))
    × (length b ≡ 3)
receive_through_udp_server_lem_example =
    receive_through_udp_server_lem eager (1 ∷ 1 ∷ 1 ∷ []) 3 open_socket eager-Replies refl
      (omega arith) (omega arith) (omega arith)

abbrev zeros : List ℕ
zeros = replicate 4096 0

main_lem_example :
    let w1 = listening eager quiet in
    let d = incoming eager buffer_len w1 in
    let sock = w1.udp.socket_descriptor in
    let log = (recv_from sock 4096, d.got) ∷ w1.log in
    let sends = send_to sock d.sender (sent_back eager zeros quiet) in
    let log' = (sends, eager.result log sends) ∷ log in
    let (r, w') = main eager zeros quiet in
    (r ≡ ok 0)
    × (w'.log ≡ (close sock, eager.result log' (close sock)) ∷ log')
    × (w'.udp.initialized ≡ false)
main_lem_example = main_lem eager zeros quiet eager-Replies (length-replicate {A = ℕ} 4096 0)
