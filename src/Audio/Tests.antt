-- ===== src/Audio/Tests.antt =====
-- The theorems about src/audio.c at a module that was never initialised.
use bbg_vo_ip.Prelude.{◌≡◌, refl, ◌+◌, true, false, [], some}
use bbg_vo_ip.Prelude.Int.{pos}
use bbg_vo_ip.Sys.{ok, times}
use bbg_vo_ip.World.{World}
use bbg_vo_ip.Testing.{eager, quiet}
use bbg_vo_ip.Audio.Control.{start, stop, audio_not_initialized, start_fresh}
use bbg_vo_ip.Audio.Flags.{start-stop_threads, joins_fill, joins_flush, makes_fill, makes_flush}

-- The world after a start of the module that was refused.
abbrev refused : World
refused = record quiet {
  audio = record {
    initialized = false;
    started = true;
    stop_playback = false;
    stop_recording = false;
    callback_data = some (pos 3);
  };
}

start-quiet : start eager 5 (pos 3) quiet ≡ (ok audio_not_initialized, refused)
unfolding start start_fresh
start-quiet = refl

start-stop_threads_example :
    let log = (stop eager refused).1.log in
    (times joins_fill log ≡ times joins_fill [] + 1)
    × (times joins_flush log ≡ times joins_flush [] + 1)
    × (times makes_fill log ≡ times makes_fill [] + 0)
    × (times makes_flush log ≡ times makes_flush [] + 0)
start-stop_threads_example =
    start-stop_threads eager 5 (pos 3) quiet refused audio_not_initialized refl start-quiet
