-- ===== src/Driver.antt =====
-- src/driver/call.c: a program that calls itself.
pub mod Status
mod Tests
use bbg_vo_ip.Prelude.{ℕ, zero, suc, cond, not, Bool, true, false, List, [], codes}
use bbg_vo_ip.Prelude.Int.{ℤ, pos}
use bbg_vo_ip.Sys.{Env, accept, close, create, join, wait, tcp_listen}
use bbg_vo_ip.World.{World, Address, Act, ◌>>=◌, ◌>>◌, pure, gets, done, call, ask_bytes}
use bbg_vo_ip.AddressBook
use bbg_vo_ip.Audio.Control
use bbg_vo_ip.Call.Session
use bbg_vo_ip.Call.Session.{CallResult, call_start}
use bbg_vo_ip.Connection
use bbg_vo_ip.Connection.{Connection, ConnectionResult, connection_ok}
use bbg_vo_ip.Voice.{s_addr}

-- `dest` and `callout`, before `main`
abbrev dest : Address
dest = record { name = []; inet_address = []; in_addr = 0 }

abbrev callout : Connection
callout = record { socket = pos 0; source_host = 0 }

abbrev is_connection_ok : ConnectionResult → Bool
is_connection_ok connection_ok = true
is_connection_ok _ = false

-- `callResult == 0`
abbrev is_call_zero : CallResult → Bool
is_call_zero call_start = true
is_call_zero _ = false

abbrev second : ℕ
second = 1000000000

module _ (env : Env) where
  -- `acceptConnections`: what `peer` then holds.
  unfoldable pub accept_connections : List ℕ → ℤ → Act Connection
  accept_connections unset listen_socket = do
    (tcp_socket, peer_addr) ← ask_bytes env (accept listen_socket)
    call env (close listen_socket)
    let peer : Connection = record { socket = tcp_socket; source_host = s_addr peer_addr }
    _ ← Session.begin env unset peer
    pure peer

  -- The `for` of `main`
  unfoldable pub wait_seconds : ℕ → Act Unit
  wait_seconds zero = done
  wait_seconds (suc left) = do call env (wait second); wait_seconds left

  -- `main` from the call on
  unfoldable pub hang_up : Connection → Connection → Act ℕ
  unfolding wait_seconds
  hang_up callout peer = do
    wait_seconds 5
    Session.terminate env callout
    Connection.close_connection env callout
    Session.terminate env peer
    Connection.close_connection env peer
    Control.teardown env
    pure 0

  -- `main` up to the connection; `meanwhile` is what the other thread does before `main` wakes up.
  unfoldable pub connect_to_self : Act Unit → Act (ConnectionResult × Connection)
  connect_to_self meanwhile = do
    Control.init env (pos 1) (pos 1)
    AddressBook.init env
    listen_socket ← Connection.listen_on_port env
    call env (create tcp_listen)
    call env (wait second)
    meanwhile
    table ← gets (λ w. w.lookup_table)
    let (res, addr) = AddressBook.lookup table (codes "localhost") dest
    Connection.create env callout addr

  -- `main`; `unset` is what `handshake` holds when it comes to be in `Call_begin`, and `ending` what the
  -- other thread does until it is joined, with what it leaves in `peer`.
  unfoldable pub main : List ℕ → Act Unit → Act Connection → Act ℕ
  unfolding connect_to_self hang_up
  main unset meanwhile ending = do
    (conn_result, callout) ← connect_to_self meanwhile
    cond (not (is_connection_ok conn_result)) (pure 1) (do
      call_result ← Session.begin env unset callout
      cond (is_call_zero call_result) (pure 1)
          (do peer ← ending; call env (join tcp_listen); hang_up callout peer))
