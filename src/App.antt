-- ===== src/App.antt =====
-- src/main_pretty.c: what happens when the user dials and when a call comes in.
pub mod Calls
pub mod Keeps
pub mod Talk
pub mod Threads
pub mod Main
pub mod Answer
mod Tests
use bbg_vo_ip.Prelude.{
  ℕ, zero, suc, ◌/◌, ◌%◌, ◌==◌, Bool, true, false, not, cond, List, Text, Option, none, some,
}
use bbg_vo_ip.Prelude.Int.{ℤ, pos, negsuc}
use bbg_vo_ip.Sys.{Env, poll_input, is_negative}
use bbg_vo_ip.World.{World, Address, Act, ◌>>=◌, ◌>>◌, pure, out_of_rounds, gets, done, ask}
use bbg_vo_ip.AddressBook.{LookupResult, address_found, lookup}
use bbg_vo_ip.Connection
use bbg_vo_ip.Connection.{Connection, ConnectionResult, connection_ok}
use bbg_vo_ip.Call.Session
use bbg_vo_ip.Call.Session.{CallResult, call_fail}
use bbg_vo_ip.Dial
use bbg_vo_ip.Dial.{to_char, is_yes, is_no}
use bbg_vo_ip.Led.{red, blue, turn_on, turn_off}
use bbg_vo_ip.Terminal.{get_char, skip_line}

-- What the local variables that nothing sets hold when they come to be.
pub record Unset : Type 0 where
  pub handshake : List ℕ
  pub connection : Connection
  pub address : Address

-- The two bits of what `poll` reports: input on the terminal, and that the peer hung up.
abbrev pub has_input : ℤ → Bool
has_input (pos n) = n % 2 == 1
has_input (negsuc n) = false

abbrev pub hung_up : ℤ → Bool
hung_up (pos n) = n / 2 % 2 == 1
hung_up (negsuc n) = false

abbrev is_address_found : LookupResult → Bool
is_address_found address_found = true
is_address_found _ = false

abbrev is_connected : ConnectionResult → Bool
is_connected connection_ok = true
is_connected _ = false

abbrev is_call_fail : CallResult → Bool
is_call_fail call_fail = true
is_call_fail _ = false

module _ (env : Env) (unset : Unset) where
  -- Whether the terminal is at its end, if there is input.
  unfoldable pub wants_out : Bool → Act Bool
  wants_out false = pure false
  wants_out true = do c ← get_char; pure (is_negative c)

  -- The `while` of `onDial` and `handleIncomingCall` during a call: until Ctrl-D or the peer hangs up.
  unfoldable pub talk : ℕ → Connection → Act Unit
  unfolding wants_out
  talk zero conn = out_of_rounds
  talk (suc rounds) conn = do
    ret ← ask env (poll_input conn.socket)
    out ← wants_out (has_input ret)
    let on = talk rounds conn
    cond out done (cond (hung_up ret) done on)

  -- `onDial` up to the connection
  unfoldable pub connect_to : Text → Act (Option Connection)
  connect_to name = do
    table ← gets (λ w. w.lookup_table)
    let (found, dest) = lookup table name unset.address
    cond (not (is_address_found found)) (pure none) (do
      (created, conn) ← Connection.create env unset.connection dest
      pure (cond (is_connected created) (some conn) none))

  -- `onDial` from the connection to the call: whether there is one.
  unfoldable pub begin_out : Connection → Act Bool
  begin_out conn = do
    Session.accept env conn
    result ← Session.begin env unset.handshake conn
    cond (is_call_fail result) (pure false) (do turn_on env blue; pure true)

  -- `onDial` after the call
  unfoldable pub end_out : Connection → Act Unit
  end_out conn = do turn_off env blue; Session.terminate env conn

  -- `onDial` from the connection on
  unfoldable pub call_out : ℕ → Connection → Act Unit
  unfolding begin_out end_out
  call_out rounds conn = do
    begun ← begin_out conn
    cond begun (do talk rounds conn; end_out conn) done

  -- `onDial`
  unfoldable pub on_dial : ℕ → Text → Act Unit
  unfolding connect_to call_out
  on_dial rounds name = do
    connected ← connect_to name
    elim connected [ none ↦ done | some conn ↦ call_out rounds conn ]

  -- `handleIncomingCall` from the answer to the call
  unfoldable pub pick_up : Connection → Act CallResult
  pick_up conn = do
    Session.accept env conn
    turn_on env blue
    skip_line
    Session.begin env unset.handshake conn

  -- `handleIncomingCall` after the call
  unfoldable pub end_in : Connection → Act Unit
  end_in conn = do turn_off env red; turn_off env blue; Session.terminate env conn; Dial.resume env

  -- `handleIncomingCall` once the user has accepted
  unfoldable pub call_in : ℕ → Connection → Act Unit
  unfolding pick_up end_in
  call_in rounds conn = do _ ← pick_up conn; talk rounds conn; end_in conn

  -- The `while` of `handleIncomingCall` that asks whether to accept
  unfoldable pub ask_user : ℕ → ℕ → Connection → Act Unit
  unfolding call_in
  ask_user rounds zero conn = out_of_rounds
  ask_user rounds (suc questions) conn = do
    c ← get_char
    let again = ask_user rounds questions conn
    cond (is_yes (to_char c)) (call_in rounds conn)
        (cond (is_no (to_char c)) (do Session.reject env conn; Dial.resume env) again)

  -- `handleIncomingCall`
  unfoldable pub handle_incoming_call : ℕ → ℕ → Connection → Act Unit
  unfolding ask_user
  handle_incoming_call rounds questions conn = do Dial.suspend env; ask_user rounds questions conn
