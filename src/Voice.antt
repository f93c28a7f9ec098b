-- ===== src/Voice.antt =====
-- src/voiceserver.c and include/voiceserver.h: the thread that takes incoming calls.
pub mod Callers
mod Tests
use bbg_vo_ip.Prelude.{
  ℕ, zero, suc, ◌+◌, ◌*◌, Bool, true, false, not, cond, List, [], ◌∷◌, Text, Option, none, some,
}
use bbg_vo_ip.Prelude.Int.{ℤ}
use bbg_vo_ip.Sys.{Env, voice_server, create, cancel, join, accept, close, inet_ntop, is_zero}
use bbg_vo_ip.World.{
  World, Voice, Address, Act, ◌>>=◌, ◌>>◌, pure, exit_if, out_of_rounds, gets, modify, done, ask,
  call, ask_bytes, ask_text,
}
use bbg_vo_ip.AddressBook.{LookupResult, address_reverse_lookup_failed, reverse_lookup}
use bbg_vo_ip.Connection
use bbg_vo_ip.Connection.{Connection}

abbrev set_voice : (Voice → Voice) → Act Unit
set_voice f = modify (λ w. record w { voice = f w.voice })

-- `sin_addr.s_addr` of the address that `accept` stores, zero where it stores none
abbrev pub s_addr : List ℕ → ℕ
s_addr (a ∷ b ∷ c ∷ d ∷ rest) = a + 256 * (b + 256 * (c + 256 * d))
s_addr _ = 0

abbrev pub is_lookup_failed : LookupResult → Bool
is_lookup_failed address_reverse_lookup_failed = true
is_lookup_failed _ = false

module _ (env : Env) where
  -- `VoiceServer_start`
  unfoldable pub start : Act Unit
  start = do
    set_voice (λ v. record v { stop = false })
    sock ← Connection.listen_on_port env
    set_voice (λ v. record v { listen_socket = sock })
    res ← ask env (create voice_server)
    exit_if (not (is_zero res)) 1

  -- `VoiceServer_stop`
  unfoldable pub stop : Act Unit
  stop = do
    set_voice (λ v. record v { stop = true })
    call env (cancel voice_server)
    call env (join voice_server)
    sock ← gets (λ w. w.voice.listen_socket)
    call env (close sock)

-- A round of the `while` of `acceptConnections` up to the event handler: a caller whose address is in the
-- table is known, any other is hung up on. `caller` is what the variable `callerAddr` holds before,
-- and the result is what it holds then.
unfoldable pub accept_caller : Env → Address → Act (Address × Option Connection)
accept_caller env caller = do
  listening ← gets (λ w. w.voice.listen_socket)
  (sock, peer) ← ask_bytes env (accept listening)
  (ptr, caller_ip) ← ask_text env (inet_ntop (s_addr peer))
  exit_if (is_zero ptr) 1
  table ← gets (λ w. w.lookup_table)
  let (res, caller') = reverse_lookup table caller_ip caller
  cond (is_lookup_failed res) (do call env (close sock); pure (caller', none))
      (pure (caller', some (record { socket = sock; source_host = s_addr peer })))

-- A round of the `while` of `acceptConnections`, with the event handler.
unfoldable pub accept_round : Env → (Address → Connection → Act Unit) → Address → Act Address
unfolding accept_caller
accept_round env handler caller = do
  (caller', known) ← accept_caller env caller
  elim known [ none ↦ pure caller' | some conn ↦ (do handler caller' conn; pure caller') ]

-- `acceptConnections`
unfoldable pub accept_connections : Env → (Address → Connection → Act Unit) → ℕ → Address → Act Unit
accept_connections env handler zero caller = out_of_rounds
accept_connections env handler (suc rounds) caller = do
  stopped ← gets (λ w. w.voice.stop)
  cond stopped done
      (do caller' ← accept_round env handler caller; accept_connections env handler rounds caller')
