-- ===== src/Call/Session/Handshake.antt =====
-- How the handshake of Call_begin of src/call.c decides, and what a call's thread does.
use bbg_vo_ip.Prelude.{
  ℕ, zero, suc, ◌+◌, ◌≡◌, ◌≢◌, ◌⊎◌, inl, inr, ◌↔◌, Bool, true, List, ◌∷◌, arith, same_text,
  same_text_iff, ne_of_same_text, Bool-cases, codes, length, refl, false,
}
use bbg_vo_ip.Sys.{
  Env, Call, ok, exits, recv, send, times, create, call_poll, is_negative, Result, Log, open_file,
  is_zero,
}
use bbg_vo_ip.World.{World}
use bbg_vo_ip.Connection.{Connection}
use bbg_vo_ip.Call.Trek
use bbg_vo_ip.Call.Trek.Greeting.{creates, sends_bytes, play_lem, play-creates}
use bbg_vo_ip.Call.Session.{
  call_start, call_fail, call_reject, int_bytes, handshake_after, begin, send_silence,
  total_silence, create_call_thread, CallResult,
}
use bbg_vo_ip.Prelude.Int.{ℤ}
use bbg_vo_ip.Call.Trek.{num_buffers}

module _ (env : Env) where
  -- The world after the handshake's `recv`.
  abbrev pub answered : Connection → World → World
  answered conn w = record w {
    log = (recv conn.socket 4, env.result w.log (recv conn.socket 4)) ∷ w.log;
  }

  -- What `handshake` holds then.
  abbrev pub handshake : List ℕ → Connection → World → List ℕ
  handshake unset conn w =
      handshake_after unset (env.result w.log (recv conn.socket 4))
        (env.bytes w.log (recv conn.socket 4))

  begin-rejected :
      (unset : List ℕ) (conn : Connection) (w : World)
      → handshake unset conn w ≡ int_bytes call_reject
      → begin env unset conn w ≡ (ok call_fail, answered conn w)
  unfolding begin
  begin-rejected unset conn w h =
      ground (arith, same_text_iff (handshake unset conn w) (int_bytes call_reject))

  -- What a handshake that does not refuse leads to: if "initSig.wav" cannot be opened, the program ends with status
  -- 1 and has created no thread; if it can be, the answer is CALL_START, the 186 frame buffers of the
  -- greeting have been sent, and the last call is the one that creates the thread which polls this
  -- connection's socket, the only thread created.
  abbrev pub Begins : Connection → World → Result CallResult × World → Type 0
  Begins conn w ending =
      let heard : Log = (recv conn.socket 4, env.result w.log (recv conn.socket 4)) ∷ w.log in
      let opened : ℤ = env.result heard (open_file (codes "initSig.wav") (codes "r")) in
      ((is_zero opened ≡ true)
        × (ending.0 ≡ exits 1)
        × (times creates ending.1.log ≡ times creates w.log))
      ⊎ ((is_zero opened ≡ false)
          × (ending.0 ≡ ok call_start)
          × (times (sends_bytes (length w.framebuffer)) ending.1.log
              ≡ times (sends_bytes (length w.framebuffer)) w.log + 186)
          × ((n : ℤ) × (log : Log) × (ending.1.log ≡ (create (call_poll conn.socket), n) ∷ log)
              × (times creates log ≡ times creates w.log)))

  -- The world after the greeting.
  abbrev greeted : Connection → World → World
  greeted conn w = (Trek.play env conn.socket (answered conn w)).1

  begin-greeted :
      (unset : List ℕ) (conn : Connection) (w : World)
      → handshake unset conn w ≢ int_bytes call_reject
      → (Trek.play env conn.socket (answered conn w)).0 ≡ ok tt
      → let thread = create (call_poll conn.socket) in
        begin env unset conn w ≡ (
          ok call_start,
          record (greeted conn w) {
            log = (thread, env.result (greeted conn w).log thread) ∷ (greeted conn w).log;
          },
        )
  unfolding begin create_call_thread
  begin-greeted unset conn w h p =
      ground (arith, same_text_iff (handshake unset conn w) (int_bytes call_reject))

  begin-no_greeting :
      (unset : List ℕ) (conn : Connection) (w : World)
      → handshake unset conn w ≢ int_bytes call_reject
      → (Trek.play env conn.socket (answered conn w)).0 ≡ exits 1
      → begin env unset conn w ≡ (exits 1, greeted conn w)
  unfolding begin
  begin-no_greeting unset conn w h p =
      ground (arith, same_text_iff (handshake unset conn w) (int_bytes call_reject))

  begin-Begins :
      (unset : List ℕ) (conn : Connection) (w : World)
      → handshake unset conn w ≢ int_bytes call_reject
      → Begins conn w (begin env unset conn w)
  unfolding times
  begin-Begins unset conn w h =
      let same = play-creates env conn.socket num_buffers (answered conn w) in
      elim (play_lem env conn.socket (length w.framebuffer) (answered conn w) refl) [
        | inl (none_such, ended, sent) ↦
            rw (begin-no_greeting unset conn w h ended) (inl (none_such, refl, same))
        | inr (there, ended, sent) ↦
            rw (begin-greeted unset conn w h ended) (inr (there, refl, sent, (_, _, refl, same)))
      ]

  -- `Call_begin` answers CALL_FAIL exactly when the four bytes of `handshake` are CALL_REJECT, and has
  -- then done nothing but the `recv`. On any other bytes the program ends with status 1 if
  -- "initSig.wav" cannot be opened, and has created no thread; if it can be, the answer is CALL_START, 186
  -- messages of one frame buffer each have been sent, and the last call made is the one that creates
  -- the thread which polls this connection's socket, the only one created.
  pub begin_lem :
      (unset : List ℕ) (conn : Connection) (w : World)
      → ((handshake unset conn w ≡ int_bytes call_reject)
          × (begin env unset conn w ≡ (ok call_fail, answered conn w)))
        ⊎ ((handshake unset conn w ≢ int_bytes call_reject)
            × Begins conn w (begin env unset conn w))
  begin_lem unset conn w =
      elim (Bool-cases (same_text (handshake unset conn w) (int_bytes call_reject))) [
        | inl same ↦
            let rejected = (same_text_iff _ _).0 same in
            inl (rejected, begin-rejected unset conn w rejected)
        | inr differs ↦
            let other = ne_of_same_text _ _ differs in inr (other, begin-Begins unset conn w other)
      ]

  -- Where `recv` fails, the answer of `Call_begin` depends on what the uninitialised `handshake` happens
  -- to hold alone: CALL_FAIL if it holds CALL_REJECT, and never otherwise.
  pub begin-failed_recv :
      (unset : List ℕ) (conn : Connection) (w : World)
      → is_negative (env.result w.log (recv conn.socket 4)) ≡ true
      → ((begin env unset conn w).0 ≡ ok call_fail) ↔ (unset ≡ int_bytes call_reject)
  begin-failed_recv unset conn w h = ground (arith, begin_lem unset conn w)

  -- The silence sent ahead of a call: `n` messages on its socket, each of one frame of zeros.
  pub send_silence-times :
      (n : ℕ) (conn : Connection) (w : World) (p : Call → Bool)
      → p (send conn.socket total_silence) ≡ true
      → ((send_silence env n conn w).0 ≡ ok tt)
        × (times p (send_silence env n conn w).1.log ≡ times p w.log + n)
  unfolding send_silence times
  send_silence-times zero conn w p h = ground arith
  send_silence-times (suc n) conn w p h = ground (
    arith,
    send_silence-times n conn
        (record w {
          log =
              (send conn.socket total_silence, env.result w.log (send conn.socket total_silence))
              ∷ w.log;
        })
        p h,
  )
