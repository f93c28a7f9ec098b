-- ===== src/Call/Trek.antt =====
-- Trek_play of src/trek.c: the greeting, sent frame by frame over the connection.
pub mod Greeting
use bbg_vo_ip.Prelude.{ℕ, zero, suc, ◌/◌, ◌≡◌, List, overwrite, codes}
use bbg_vo_ip.Prelude.Int.{ℤ}
use bbg_vo_ip.Sys.{Env, open_file, seek_file, read_file, close_file, send, is_zero}
use bbg_vo_ip.World.{World, Act, ◌>>=◌, ◌>>◌, exit_if, gets, modify, done, ask, call, ask_bytes}
use bbg_vo_ip.Audio.Control.{frames_per_buffer, framebuffer_size}

abbrev pub num_frames : ℕ
num_frames = 95616

-- NUM_BUFFERS: whole buffers only
abbrev pub num_buffers : ℕ
num_buffers = num_frames / frames_per_buffer

-- The WAV header that is skipped.
abbrev wav_header : ℕ
wav_header = 44

module _ (env : Env) (socket : ℤ) where
  -- The `for` of `Trek_play`: a short read leaves the end of the frame buffer as it was.
  unfoldable pub play_frames : ℕ → Act Unit
  play_frames zero = done
  play_frames (suc left) = do
    (_, bytes) ← ask_bytes env (read_file framebuffer_size)
    modify (λ w. record w { framebuffer = overwrite bytes w.framebuffer })
    frame ← gets (λ w. w.framebuffer)
    call env (send socket frame)
    play_frames left

  -- `Trek_play`, for a number of frames
  unfoldable pub play_wav : ℕ → Act Unit
  unfolding play_frames
  play_wav frames = do
    wav ← ask env (open_file (codes "initSig.wav") (codes "r"))
    exit_if (is_zero wav) 1
    call env (seek_file wav_header)
    play_frames frames
    call env close_file

  abbrev pub play : Act Unit
  play = play_wav num_buffers
