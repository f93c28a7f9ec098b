-- ===== src/Call/Session.antt =====
-- Call_accept, Call_reject, Call_begin, Call_terminate and the thread of a call of src/call.c.
pub mod Handshake
pub mod Peers
use bbg_vo_ip.Prelude.{
  ℕ, zero, suc, ◌≡◌, Bool, true, false, not, cond, ◌||◌, List, [], ◌∷◌, overwrite, take, replicate,
  same_text,
}
use bbg_vo_ip.Prelude.Int.{ℤ, pos, negsuc}
use bbg_vo_ip.Sys.{Env, Thread, send, recv, shutdown, create, call_poll, poll_hang_up, is_negative}
use bbg_vo_ip.World.{Act, ◌>>=◌, ◌>>◌, pure, exit_if, done, ask, call, ask_bytes}
use bbg_vo_ip.Connection.{Connection}
use bbg_vo_ip.Audio.Control
use bbg_vo_ip.Audio.Control.{
  AudioResult, audio_ok, audio_already_started, framebuffer_size, min_playback_queue_length,
}
use bbg_vo_ip.Call.Trek

-- `CallResult`; CALL_ACCEPT and CALL_REJECT are also what the peers send to each other.
pub data CallResult : Type 0 where
  call_start call_fail call_accept call_reject : CallResult

-- The four bytes of an enumerator in an `int` of the little-endian target.
abbrev pub int_bytes : CallResult → List ℕ
int_bytes call_start = 0 ∷ 0 ∷ 0 ∷ 0 ∷ []
int_bytes call_fail = 1 ∷ 0 ∷ 0 ∷ 0 ∷ []
int_bytes call_accept = 2 ∷ 0 ∷ 0 ∷ 0 ∷ []
int_bytes call_reject = 3 ∷ 0 ∷ 0 ∷ 0 ∷ []

-- What `recv` leaves in `handshake`, which nothing has set before.
abbrev pub handshake_after : List ℕ → ℤ → List ℕ → List ℕ
handshake_after unset (pos n) bytes = overwrite (take n bytes) unset
handshake_after unset (negsuc n) bytes = unset

abbrev pub total_silence : List ℕ
total_silence = replicate framebuffer_size 0

module _ (env : Env) where
  -- `Call_accept`
  unfoldable pub accept : Connection → Act Unit
  accept conn = call env (send conn.socket (int_bytes call_accept))

  -- `Call_reject`
  unfoldable pub reject : Connection → Act Unit
  reject conn = call env (send conn.socket (int_bytes call_reject))

  -- `createCallThread`
  unfoldable pub create_call_thread : Connection → Act Unit
  create_call_thread conn = call env (create (call_poll conn.socket))

  -- `Call_begin`; `unset` is what the variable `handshake` holds when it comes to be.
  unfoldable pub begin : List ℕ → Connection → Act CallResult
  unfolding create_call_thread
  begin unset conn = do
    (got, bytes) ← ask_bytes env (recv conn.socket 4)
    cond (same_text (handshake_after unset got bytes) (int_bytes call_reject)) (pure call_fail)
        (do Trek.play env conn.socket; create_call_thread conn; pure call_start)

  -- `Call_terminate`
  unfoldable pub terminate : Connection → Act Unit
  terminate conn = do call env (shutdown conn.socket); _ ← Control.stop env; done

  -- The silence that `beginCall` sends ahead.
  unfoldable pub send_silence : ℕ → Connection → Act Unit
  send_silence zero conn = done
  send_silence (suc left) conn = do
    call env (send conn.socket total_silence)
    send_silence left conn

  abbrev pub is_running : AudioResult → Bool
  is_running audio_ok = true
  is_running audio_already_started = true
  is_running _ = false

  -- `beginCall`, the thread of a call
  unfoldable pub begin_call : ℕ → Connection → Act Unit
  begin_call rounds conn = do
    send_silence min_playback_queue_length conn
    result ← Control.start env rounds conn.socket
    cond (is_running result)
        (do ret ← ask env (poll_hang_up conn.socket); exit_if (is_negative ret) 1) done
