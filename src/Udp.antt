-- ===== src/Udp.antt =====
-- src/socket.c and include/socket.h: a UDP socket. A socket address is its bytes.
pub mod Echo
pub mod Message
mod Tests
use bbg_vo_ip.Prelude.{
  ℕ, ◌-◌, ◌^◌, ◌==◌, Bool, true, false, not, cond, List, [], ◌∷◌, Option, none, some, Text, before,
  ltb, store, take, if◌then◌else◌,
}
use bbg_vo_ip.Prelude.Int.{ℤ, pos, negsuc}
use bbg_vo_ip.Sys.{Env, Call, ok, socket, bind, close, recv_from, send_to, unsigned}
use bbg_vo_ip.World.{
  World, Udp, Act, ◌>>=◌, ◌>>◌, pure, exit, access_fault, gets, modify, done, ask, call,
}

abbrev set_udp : (Udp → Udp) → Act Unit
set_udp f = modify (λ w. record w { udp = f w.udp })

-- What `recvfrom` stores: the number returned, the message, and the sender's address.
pub record Datagram : Type 0 where
  pub got : ℤ
  pub bytes : List ℕ
  pub sender : List ℕ

-- `buffer[i] = 0` with an `int i` that was an `unsigned int`
abbrev pub terminate_at : ℕ → List ℕ → Option (List ℕ)
terminate_at i buffer = if ltb i (2 ^ 31) then store i (0 ∷ []) buffer else none

-- `(bytes < maxLen) ? bytes : maxLen-1`
abbrev pub string_termination : ℕ → ℕ → ℕ
string_termination bytes max_len =
    if ltb bytes max_len then bytes else if max_len == 0 then 2 ^ 32 - 1 else max_len - 1

-- What the buffer holds of the message.
abbrev pub received : Datagram → List ℕ → Option (List ℕ)
received d buffer = elim d.got [ pos n ↦ store 0 (take n d.bytes) buffer | negsuc n ↦ some buffer ]

abbrev pub terminated : ℕ → Datagram → Option (List ℕ) → Option (List ℕ)
terminated max_len d none = none
terminated max_len d (some buffer) =
    terminate_at (string_termination (unsigned d.got) max_len) buffer

abbrev or_fault : {A : Type 0} → Option A → Act A
or_fault none = access_fault
or_fault (some a) = pure a

module _ (env : Env) where
  abbrev pub ask_datagram : Call → Act Datagram
  ask_datagram c w = (
    ok (record { got = env.result w.log c; bytes = env.bytes w.log c; sender = env.text w.log c }),
    record w { log = (c, env.result w.log c) ∷ w.log },
  )

  -- `initializeUdpServer`
  unfoldable pub initialize_udp_server : ℕ → Act Unit
  initialize_udp_server port = do
    sock ← ask env socket
    set_udp (λ u. record u { socket_descriptor = sock })
    call env (bind sock port)
    set_udp (λ u. record u { initialized = true })

  -- `receiveThroughUdpServer` into a buffer, or into NULL: the sender and what the buffer then holds.
  unfoldable pub receive_through_udp_server : Option (List ℕ) → ℕ → Act (List ℕ × List ℕ)
  receive_through_udp_server buffer max_len = do
    udp ← gets (λ w. w.udp)
    cond (not udp.initialized) (exit 1) (elim buffer [
      | none ↦ exit 1
      | some b ↦ (do
        d ← ask_datagram (recv_from udp.socket_descriptor max_len)
        b' ← or_fault (terminated max_len d (received d b))
        pure (d.sender, b'))
    ])

  -- `sendThroughUdpServer` of a C string, or of NULL
  unfoldable pub send_through_udp_server : List ℕ → Option Text → Act Unit
  send_through_udp_server destination message = do
    udp ← gets (λ w. w.udp)
    cond (not udp.initialized) done (elim message [
      | none ↦ exit 1
      | some m ↦ call env (send_to udp.socket_descriptor destination (before 0 m))
    ])

  -- `closeUdpServer`
  unfoldable pub close_udp_server : Act Unit
  close_udp_server = do
    udp ← gets (λ w. w.udp)
    cond (not udp.initialized) done (do
      call env (close udp.socket_descriptor)
      set_udp (λ u. record u { initialized = false; socket_descriptor = pos 0 }))
