-- ===== src/Connection/Outcome.antt =====
-- How `Connection_create` and `Connection_listen` of src/connection.c end.
use bbg_vo_ip.Prelude.{◌≡◌, ◌⊎◌, true, false, ◌∷◌, arith, if◌then◌else◌}
use bbg_vo_ip.Prelude.Int.{ℤ, pos, negsuc}
use bbg_vo_ip.Sys.{Env, Log, ok, exits, socket, connect, bind, listen, is_negative, ◌==ℤ◌}
use bbg_vo_ip.World.{World, Address}
use bbg_vo_ip.Connection.{
  Connection, connection_ok, connection_socket_fail, connection_connect_fail, create,
  listen_on_port,
}

-- `connect` and its like return 0 or -1; the reason of a failure is in `errno`.
abbrev pub ZeroOrMinusOne : ℤ → Type 0
ZeroOrMinusOne res = (res ≡ pos 0) ⊎ (res ≡ negsuc 0)

-- Under what POSIX says of `connect`, `Connection_create` answers CONNECTION_OK exactly when both
-- calls succeed, CONNECTION_SOCKET_FAIL exactly when no socket was made, and otherwise
-- CONNECTION_CONNECT_FAIL. It makes these two calls at most, so a socket whose `connect` failed is
-- left open.
pub create_lem :
    (env : Env) (conn : Connection) (addr : Address) (w : World)
    → ((log : Log) (sock : ℤ) → ZeroOrMinusOne (env.result log (connect sock addr.in_addr)))
    → let sock = env.result w.log socket in
      let log = (socket, sock) ∷ w.log in
      let res = env.result log (connect sock addr.in_addr) in
      let (out, w') = create env conn addr w in
      ((is_negative sock ≡ true)
        × (out ≡ ok (connection_socket_fail, record conn { socket = sock }))
        × (w'.log ≡ log))
      ⊎ ((is_negative sock ≡ false)
          × (w'.log ≡ (connect sock addr.in_addr, res) ∷ log)
          × (out
              ≡ ok (
                if res ==ℤ pos 0 then connection_ok else connection_connect_fail,
                record { socket = sock; source_host = addr.in_addr },
              )))
unfolding create
create_lem env conn addr w h =
    let sock = env.result w.log socket in
    let posix = h ((socket, sock) ∷ w.log) sock in ground arith

-- `Connection_listen` ends the program with status 1 unless all of its three calls succeed, and then
-- returns the socket that it has bound to port 5060 and made to listen, having made no other call.
pub listen_on_port_lem :
    (env : Env) (w : World)
    → let sock = env.result w.log socket in
      let log = (socket, sock) ∷ w.log in
      let bound = env.result log (bind sock 5060) in
      let log' = (bind sock 5060, bound) ∷ log in
      let listening = env.result log' (listen sock) in
      let (out, w') = listen_on_port env w in
      ((out ≡ exits 1)
        × ((is_negative sock ≡ true)
            ⊎ ((is_negative bound ≡ true) ⊎ (is_negative listening ≡ true))))
      ⊎ ((out ≡ ok sock)
          × ((is_negative sock ≡ false)
              × (is_negative bound ≡ false)
              × (is_negative listening ≡ false))
          × (w'.log ≡ (listen sock, listening) ∷ log'))
unfolding listen_on_port
listen_on_port_lem env w = ground arith
