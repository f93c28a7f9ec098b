-- ===== src/Led/Tests.antt =====
-- The theorems about src/led.c on a concrete system.
use bbg_vo_ip.Prelude.{refl, [], ◌∷◌}
use bbg_vo_ip.Prelude.Int.{pos}
use bbg_vo_ip.Sys.{Env, times}
use bbg_vo_ip.Testing.{answering, quiet}
use bbg_vo_ip.Led.Blink.{OneBlinks, start, stop, after, after-OneBlinks}

abbrev fine : Env
fine = answering (pos 1) [] []

quiet-OneBlinks : OneBlinks quiet
unfolding times
quiet-OneBlinks = (refl, refl)

after-OneBlinks_example : OneBlinks (after fine (start ∷ start ∷ stop ∷ stop ∷ []) quiet)
after-OneBlinks_example =
    after-OneBlinks fine (start ∷ start ∷ stop ∷ stop ∷ []) quiet quiet-OneBlinks
