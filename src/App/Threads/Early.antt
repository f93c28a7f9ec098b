-- ===== src/App/Threads/Early.antt =====
-- A call of src/main_pretty.c that ends before its thread has run.
use bbg_vo_ip.Prelude.{
  ℕ, ◌≡◌, refl, Bool, true, false, List, ◌∷◌, ◌++◌, ◌+◌, some, arith, ap, ◌∙◌, cond,
}
use bbg_vo_ip.Prelude.Int.{ℤ, pos}
use bbg_vo_ip.Sys.{
  Env, Log, Call, ok, shutdown, times, join, fill_playback, flush_record, pa_open, pa_start,
  pa_close, clear_queues, poll_hang_up, is_negative,
}
use bbg_vo_ip.World.{World, Audio, Act, ◌>>◌, ◌>>=◌, ask, exit_if, done}
use bbg_vo_ip.World.Keeps.{Keeps, Keeps-pure, Keeps-call, keeps_rules, is_plain}
use bbg_vo_ip.World.Triple.{
  Triple, triple, run_triple, Triple->>=, Triple-Keeps, Triple-Keeps_where,
}
use bbg_vo_ip.Connection.{Connection}
use bbg_vo_ip.Audio.Control
use bbg_vo_ip.Audio.Control.{AudioResult, audio_ok, run_stream, min_playback_queue_length}
use bbg_vo_ip.Audio.Flags.{
  makes_fill, makes_flush, buffer_playback_queue-times, times-start, waiting, opened,
}
use bbg_vo_ip.Call.Session
use bbg_vo_ip.Call.Session.{begin_call, send_silence, is_running}
use bbg_vo_ip.Dial
use bbg_vo_ip.Dial.{start_thread}
use bbg_vo_ip.Terminal.{skip_line}
use bbg_vo_ip.Led.{red, blue}
use bbg_vo_ip.App.{Unset, end_in}
use bbg_vo_ip.App.Keeps.{IsApart, talk-Keeps, write_light-Keeps}
use bbg_vo_ip.App.Threads.Apart.{send_silence-Keeps}
use bbg_vo_ip.App.Threads.Served.{served, start-served}
use bbg_vo_ip.App.Threads.{
  Phone, Reach, ends_in, runs, here, next, accepting, answering, voice_end, after,
}

-- The calls with which the audio module is stopped.
abbrev pub ends_audio : Call → Bool
ends_audio (join fill_playback) = true
ends_audio (join flush_record) = true
ends_audio pa_close = true
ends_audio clear_queues = true
ends_audio _ = false

-- The audio module's flags, and how often its two threads have been made and it has been stopped.
abbrev Counts : Type 0
Counts = ℕ × ℕ × ℕ

abbrev counts : World → Counts
counts w = (times makes_fill w.log, times makes_flush w.log, times ends_audio w.log)

abbrev audio_state : World → Audio × Counts
audio_state w = (w.audio, counts w)

plain_lem :
    (c : Call)
    → is_plain c ≡ true
    → (makes_fill c ≡ false) × (makes_flush c ≡ false) × (ends_audio c ≡ false)
plain_lem c e = ground arith

audio_state-IsApart : IsApart audio_state
unfolding times
audio_state-IsApart = record {
  log = λ c e. record {
    at = λ w n. rw ((plain_lem c e).0, (plain_lem c e).1, (plain_lem c e).2) refl;
  };
  stdin = λ w l. refl;
  framebuffer = λ w l. refl;
}

module _ (env : Env) where
  resume-Keeps : Keeps audio_state (Dial.resume env)
  unfolding Dial.resume start_thread skip_line times
  resume-Keeps = record { at = λ w. ground arith }

  -- A module that has not been started is not stopped.
  abbrev Idle : Audio × Counts → World → Type 0
  Idle s w = (audio_state w ≡ s) × (s.0.started ≡ false)

  stop-Idle : (s : Audio × Counts) → Triple (Idle s) (Control.stop env) (λ _. Idle s)
  unfolding Control.stop
  stop-Idle s = triple (λ w w' r h e. ground arith)

  kept :
      {A : Type 0} {m : Act A} (s : Audio × Counts)
      → Keeps audio_state m
      → Triple (Idle s) m (λ _. Idle s)
  kept s k = Triple-Keeps_where (λ x. (x ≡ s) × (s.0.started ≡ false)) k

  before_kept :
      {m k : Act Unit} (s : Audio × Counts)
      → Keeps audio_state m
      → Triple (Idle s) k (λ _. Idle s)
      → Triple (Idle s) (m >> k) (λ _. Idle s)
  before_kept {m} s km hk = Triple->>= (Idle s) (λ _. Idle s) (λ _. Idle s) m (kept s km) (λ _. hk)

  terminate-Idle :
      (s : Audio × Counts) (conn : Connection)
      → Triple (Idle s) (Session.terminate env conn) (λ _. Idle s)
  unfolding Session.terminate
  terminate-Idle s conn =
      before_kept s
        (Keeps-call audio_state env (shutdown conn.socket) (audio_state-IsApart.log _ refl))
        (Triple->>= (Idle s) (λ _. Idle s) (λ _. Idle s) (Control.stop env) (stop-Idle s)
          (λ _. kept s (Keeps-pure audio_state tt)))

  voice_end-Idle :
      (s : Audio × Counts) (unset : Unset) (rounds : ℕ) (conn : Connection)
      → Triple (Idle s) (voice_end env unset rounds conn) (λ _. Idle s)
  unfolding voice_end end_in
  voice_end-Idle s unset rounds conn =
      before_kept s (talk-Keeps audio_state audio_state-IsApart env unset rounds conn) (
        before_kept s (write_light-Keeps audio_state audio_state-IsApart env _ red) (
          before_kept s (write_light-Keeps audio_state audio_state-IsApart env _ blue) (
            Triple->>= (Idle s) (λ _. Idle s) (λ _. Idle s) (Session.terminate env conn)
              (terminate-Idle s conn) (λ _. kept s resume-Keeps))))

module _ (env : Env) (opens : (log : Log) → env.result log pa_open ≡ pos 0)
    (starts : (log : Log) → env.result log pa_start ≡ pos 0) where
  run_stream_lem :
      (rounds : ℕ) (w w' : World) (r : AudioResult)
      → run_stream env rounds w ≡ (ok r, w')
      → (r ≡ audio_ok) × (times ends_audio w'.log ≡ times ends_audio w.log)
  unfolding run_stream times
  run_stream_lem rounds w w' r e = ground (
    arith,
    starts (Control.buffer_playback_queue env rounds (waiting env w)).1.log,
    buffer_playback_queue-times env ends_audio rounds (waiting env w) refl,
  )

  -- Where the stream can be opened and started, `Audio_start` makes both threads and stops nothing.
  start_lem :
      (rounds : ℕ) (socket : ℤ) (w w' : World) (r : AudioResult)
      → w.audio.started ≡ false
      → w.audio.initialized ≡ true
      → Control.start env rounds socket w ≡ (ok r, w')
      → (r ≡ audio_ok) × (times ends_audio w'.log ≡ times ends_audio w.log)
  unfolding Control.start Control.start_fresh times
  start_lem rounds socket w w' r off there e =
      ground (arith, opens w.log, run_stream_lem rounds (opened env socket w) w' r)

  -- With the threads made once more and nothing stopped, the module serves the socket.
  abbrev Serves : ℤ → Counts → Audio × Counts → Type 0
  Serves socket (fills, flushes, ends) (a, (fills', flushes', ends')) =
      (served a ≡ some socket) × (fills' ≡ fills + 1) × (flushes' ≡ flushes + 1) × (ends' ≡ ends)

  begin_call-Serves :
      (a : Audio) (n : Counts) (rounds : ℕ) (conn : Connection)
      → a.started ≡ false
      → a.initialized ≡ true
      → Triple
          (λ w. audio_state w ≡ (a, n))
          (begin_call env rounds conn)
          (λ _ w. Serves conn.socket n (audio_state w))
  unfolding begin_call
  begin_call-Serves a n rounds conn off there =
      Triple->>= (λ w. audio_state w ≡ (a, n)) (λ _ w. Serves conn.socket n (audio_state w))
        (λ _ w. audio_state w ≡ (a, n)) (send_silence env min_playback_queue_length conn)
        (Triple-Keeps (a, n)
          (send_silence-Keeps audio_state audio_state-IsApart env min_playback_queue_length conn))
        (λ _.
          Triple->>= (λ w. audio_state w ≡ (a, n)) (λ _ w. Serves conn.socket n (audio_state w))
            (λ _ w. Serves conn.socket n (audio_state w)) (Control.start env rounds conn.socket)
            (triple started) (λ result. Triple-Keeps_where (Serves conn.socket n) (watched result)))
    where
      started :
          (w w' : World) (r : AudioResult)
          → audio_state w ≡ (a, n)
          → Control.start env rounds conn.socket w ≡ (ok r, w')
          → Serves conn.socket n (audio_state w')
      started w w' r h e =
          let same : w.audio ≡ a = ap (λ x. x.0) h in
          let off' : w.audio.started ≡ false = ap (λ x. x.started) same ∙ off in
          let there' : w.audio.initialized ≡ true = ap (λ x. x.initialized) same ∙ there in
          ground (
            arith,
            start_lem rounds conn.socket w w' r off' there' e,
            times-start env rounds conn.socket w w' r off' e,
            start-served env rounds conn.socket w off',
          )

      watched :
          (result : AudioResult)
          → Keeps audio_state (
              cond
                (is_running env result)
                (do ret ← ask env (poll_hang_up conn.socket); exit_if (is_negative ret) 1)
                done)
      watched result = search (keeps_rules, audio_state-IsApart.log)

module _ (env : Env) (unset : Unset) where
  -- If an incoming call is hung up before its thread has run, while the audio module is initialised and not
  -- started, the stream can always be opened and started, and the call's end and then its thread come
  -- back, then the phone comes to a state where the voice server waits for the next caller and the
  -- module is started and serves the ended call's connection: its two threads were made once more,
  -- and in all this neither was joined, no stream closed and no queue emptied.
  pub hung_up_early :
      (p : Phone) (rounds n : ℕ) (conn : Connection) (sooner later : List Connection) (w v : World)
      → p.voice ≡ answering conn
      → p.begun ≡ sooner ++ conn ∷ later
      → p.world.audio.started ≡ false
      → p.world.audio.initialized ≡ true
      → ((log : Log) → env.result log pa_open ≡ pos 0)
      → ((log : Log) → env.result log pa_start ≡ pos 0)
      → voice_end env unset rounds conn p.world ≡ (ok tt, w)
      → begin_call env n conn w ≡ (ok tt, v)
      → Reach env unset p (record {
        world = v;
        dial = after env unset p w;
        voice = accepting;
        begun = sooner ++ later;
      })
        × (served v.audio ≡ some conn.socket)
        × (times makes_fill v.log ≡ times makes_fill p.world.log + 1)
        × (times makes_flush v.log ≡ times makes_flush p.world.log + 1)
        × (times ends_audio v.log ≡ times ends_audio p.world.log)
  hung_up_early p rounds n conn sooner later w v at begun off there opens starts ended run =
      let state = audio_state p.world in
      let (same, _) =
        run_triple (voice_end-Idle env state unset rounds conn) p.world w tt (refl, off) ended in
      let (serves, fills, flushes, ends) =
        run_triple (begin_call-Serves env opens starts p.world.audio state.1 n conn off there) w v
          tt same run in
      (
        next (next here (ends_in rounds conn w at ended)) (runs n conn sooner later v begun run),
        serves,
        fills,
        flushes,
        ends,
      )
