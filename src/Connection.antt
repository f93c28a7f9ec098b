-- ===== src/Connection.antt =====
-- src/connection.c and include/connection.h: TCP connections on port 5060. Messages on the terminal are
-- left out, and so are the constants that go into the socket calls (family, port, backlog).
pub mod Outcome
use bbg_vo_ip.Prelude.{ℕ, Bool, ◌||◌, if◌then◌else◌, cond}
use bbg_vo_ip.Prelude.Int.{ℤ, pos}
use bbg_vo_ip.Sys.{Env, socket, connect, bind, listen, close, is_negative, ◌==ℤ◌}
use bbg_vo_ip.World.{Address, Act, ◌>>=◌, ◌>>◌, pure, exit_if, ask, call, done}

-- `ConnectionResult`
pub data ConnectionResult : Type 0 where
  connection_ok connection_busy connection_socket_fail connection_connect_fail : ConnectionResult

-- `Connection`; `source_host` is the IPv4 address in `sourceHost`.
pub record Connection : Type 0 where
  pub socket : ℤ
  pub source_host : ℕ

-- The numbers of Linux that the `switch` names.
abbrev eisconn : ℤ
eisconn = pos 106

abbrev enetunreach : ℤ
enetunreach = pos 101

abbrev econnrefused : ℤ
econnrefused = pos 111

-- What the `switch` and the test after it make of what `connect` returned.
unfoldable pub connect_result : ℤ → ConnectionResult
connect_result res =
    if res ==ℤ eisconn
    then connection_connect_fail
    else if res ==ℤ enetunreach
    then connection_connect_fail
    else if res ==ℤ econnrefused
    then connection_connect_fail
    else if is_negative res
    then connection_connect_fail
    else connection_ok

module _ (env : Env) where
  -- `Connection_create`: the result and what `*conn` then holds.
  unfoldable pub create : Connection → Address → Act (ConnectionResult × Connection)
  unfolding connect_result
  create conn addr = do
    sock ← ask env socket
    cond (is_negative sock) (pure (connection_socket_fail, record conn { socket = sock })) (do
      res ← ask env (connect sock addr.in_addr)
      pure (connect_result res, record { socket = sock; source_host = addr.in_addr }))

  -- `Connection_close`
  unfoldable pub close_connection : Connection → Act Unit
  close_connection conn = call env (close conn.socket)

  -- `Connection_reject`, whose body is empty
  unfoldable pub reject : Connection → Act Unit
  reject conn = done

  -- `Connection_listen`
  unfoldable pub listen_on_port : Act ℤ
  listen_on_port = do
    sock ← ask env socket
    exit_if (is_negative sock) 1
    bound ← ask env (bind sock 5060)
    exit_if (is_negative bound) 1
    listening ← ask env (listen sock)
    exit_if (is_negative listening) 1
    pure sock
