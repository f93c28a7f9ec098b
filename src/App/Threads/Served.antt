-- ===== src/App/Threads/Served.antt =====
-- Which connection the audio module serves once `beginCall` of src/call.c has run.
use bbg_vo_ip.Prelude.{ℕ, ◌≡◌, refl, true, false, cond, Option, none, some, arith, ap, ◌∙◌, subst}
use bbg_vo_ip.Prelude.Int.{ℤ}
use bbg_vo_ip.Sys.{Env, poll_hang_up, is_negative}
use bbg_vo_ip.World.{World, Audio, exit_if, ask, done, ◌>>=◌}
use bbg_vo_ip.World.Keeps.{Keeps, keeps_rules}
use bbg_vo_ip.World.Triple.{Triple, triple, Triple->>=, Triple-Keeps_where}
use bbg_vo_ip.Connection.{Connection}
use bbg_vo_ip.Audio.Control
use bbg_vo_ip.Audio.Control.{
  AudioResult, run_stream, buffer_playback_queue, set_audio, min_playback_queue_length,
}
use bbg_vo_ip.Audio.Flags.{started-start, callback_data-start}
use bbg_vo_ip.Call.Session.{begin_call, send_silence, is_running}
use bbg_vo_ip.App.Keeps.{audio-IsApart}
use bbg_vo_ip.App.Threads.Apart.{audio, send_silence-Keeps}

-- The socket whose connection the audio module serves, if it has been started.
abbrev pub served : Audio → Option ℤ
served a = cond a.started a.callback_data none

served-started : (a : Audio) (socket : ℤ) → served a ≡ some socket → a.started ≡ true
served-started a socket e = ground arith

module _ (env : Env) where
  pub start-served :
      (rounds : ℕ) (socket : ℤ) (w : World)
      → w.audio.started ≡ false
      → served (Control.start env rounds socket w).1.audio ≡ some socket
  start-served rounds socket w h =
      rw (started-start env rounds socket w) (callback_data-start env rounds socket w h)

  start_started :
      (rounds : ℕ) (socket : ℤ) (w : World)
      → w.audio.started ≡ true
      → (Control.start env rounds socket w).1.audio ≡ w.audio
  unfolding Control.start
  start_started rounds socket w h = rw h refl

  -- What `beginCall` does after `Audio_start` leaves the audio module alone.
  watch-Keeps :
      (conn : Connection) (result : AudioResult)
      → Keeps audio (
          cond
            (is_running env result)
            (do ret ← ask env (poll_hang_up conn.socket); exit_if (is_negative ret) 1)
            done)
  watch-Keeps conn result = search (keeps_rules, audio-IsApart.log)

  -- `beginCall` is `Audio_start` between calls of the system.
  begin_call_lem :
      (P Q : Audio → Type 0) (rounds : ℕ) (conn : Connection)
      → ((w : World) → P w.audio → Q (Control.start env rounds conn.socket w).1.audio)
      → Triple (λ w. P w.audio) (begin_call env rounds conn) (λ _ w. Q w.audio)
  unfolding begin_call
  begin_call_lem P Q rounds conn started =
      Triple->>= (λ w. P w.audio) (λ _ w. Q w.audio) (λ _ w. P w.audio)
        (send_silence env min_playback_queue_length conn)
        (Triple-Keeps_where P
          (send_silence-Keeps audio audio-IsApart env min_playback_queue_length conn))
        (λ _.
          Triple->>= (λ w. P w.audio) (λ _ w. Q w.audio) (λ _ w. Q w.audio)
            (Control.start env rounds conn.socket)
            (triple (λ w w' r p e. subst (λ x. Q x.1.audio) e (started w p)))
            (λ result. Triple-Keeps_where Q (watch-Keeps conn result)))

  -- Where the audio module has been started for a call, the thread of another one leaves it so.
  pub begin_call_started :
      (rounds : ℕ) (conn : Connection) (socket : ℤ)
      → Triple
          (λ w. served w.audio ≡ some socket)
          (begin_call env rounds conn)
          (λ _ w. served w.audio ≡ some socket)
  begin_call_started rounds conn socket =
      begin_call_lem (λ a. served a ≡ some socket) (λ a. served a ≡ some socket) rounds conn
        (λ w h.
          ap served (start_started rounds conn.socket w (served-started w.audio socket h)) ∙ h)
