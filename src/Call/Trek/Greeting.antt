-- ===== src/Call/Trek/Greeting.antt =====
-- What Trek_play of src/trek.c sends.
use bbg_vo_ip.Prelude.{
  ℕ, zero, suc, ◌+◌, ◌≡◌, refl, ◌⊎◌, ◌==◌, Bool, true, false, ◌∷◌, arith, codes, length, overwrite,
  length-overwrite,
}
use bbg_vo_ip.Prelude.Int.{ℤ}
use bbg_vo_ip.Sys.{
  Env, Call, ok, exits, open_file, read_file, seek_file, send, times, is_zero, create,
}
use bbg_vo_ip.World.{World}
use bbg_vo_ip.Audio.Control.{framebuffer_size}
use bbg_vo_ip.Call.Trek.{play_frames, play_wav, play, num_buffers}

-- The calls that send `n` bytes, on whichever socket.
abbrev pub sends_bytes : ℕ → Call → Bool
sends_bytes n (send socket bytes) = length bytes == n
sends_bytes n _ = false

-- The calls that create a thread.
abbrev pub creates : Call → Bool
creates (create thread) = true
creates _ = false

module _ (env : Env) (socket : ℤ) where
  -- The world after a frame was read and sent.
  abbrev frame_sent : World → World
  frame_sent w =
      let bytes = env.bytes w.log (read_file framebuffer_size) in
      let log =
        (read_file framebuffer_size, env.result w.log (read_file framebuffer_size)) ∷ w.log in
      let frame = overwrite bytes w.framebuffer in
      record w {
        log = (send socket frame, env.result log (send socket frame)) ∷ log;
        framebuffer = frame;
      }

  pub play_frames-times :
      (left n : ℕ) (w : World)
      → length w.framebuffer ≡ n
      → ((play_frames env socket left w).0 ≡ ok tt)
        × (times (sends_bytes n) (play_frames env socket left w).1.log
            ≡ times (sends_bytes n) w.log + left)
  unfolding play_frames times
  play_frames-times zero n w l = ground arith
  play_frames-times (suc left) n w l = ground (
    arith,
    length-overwrite (env.bytes w.log (read_file framebuffer_size)) w.framebuffer,
    play_frames-times left n (frame_sent w),
  )

  -- The world in which the frames are read.
  abbrev sought : World → World
  sought w =
      let wav = open_file (codes "initSig.wav") (codes "r") in
      let log = (wav, env.result w.log wav) ∷ w.log in
      record w { log = (seek_file 44, env.result log (seek_file 44)) ∷ log }

  play_wav_lem :
      (frames n : ℕ) (w : World)
      → length w.framebuffer ≡ n
      → let wav = open_file (codes "initSig.wav") (codes "r") in
        let (r, w') = play_wav env socket frames w in
        ((is_zero (env.result w.log wav) ≡ true)
          × (r ≡ exits 1)
          × (times (sends_bytes n) w'.log ≡ times (sends_bytes n) w.log))
        ⊎ ((is_zero (env.result w.log wav) ≡ false)
            × (r ≡ ok tt)
            × (times (sends_bytes n) w'.log ≡ times (sends_bytes n) w.log + frames))
  unfolding play_wav times
  play_wav_lem frames n w l = ground (arith, play_frames-times frames n (sought w) l)

  -- The greeting is sent as 186 messages of one whole frame buffer each, however much of the file there
  -- is to read; only where the file cannot be opened is nothing sent, and the program ends with status 1.
  pub play_lem :
      (n : ℕ) (w : World)
      → length w.framebuffer ≡ n
      → let wav = open_file (codes "initSig.wav") (codes "r") in
        let (r, w') = play env socket w in
        ((is_zero (env.result w.log wav) ≡ true)
          × (r ≡ exits 1)
          × (times (sends_bytes n) w'.log ≡ times (sends_bytes n) w.log))
        ⊎ ((is_zero (env.result w.log wav) ≡ false)
            × (r ≡ ok tt)
            × (times (sends_bytes n) w'.log ≡ times (sends_bytes n) w.log + 186))
  play_lem n w l = play_wav_lem num_buffers n w l

  play_frames-creates :
      (left : ℕ) (w : World)
      → times creates (play_frames env socket left w).1.log ≡ times creates w.log
  unfolding play_frames times
  play_frames-creates zero w = refl
  play_frames-creates (suc left) w = ground (arith, play_frames-creates left (frame_sent w))

  -- It creates no thread.
  pub play-creates :
      (frames : ℕ) (w : World)
      → times creates (play_wav env socket frames w).1.log ≡ times creates w.log
  unfolding play_wav times
  play-creates frames w = ground (arith, play_frames-creates frames (sought w))
