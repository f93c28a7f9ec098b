-- ===== src/Dial/Tests.antt =====
-- The theorems about src/dialservice.c at concrete worlds.
use bbg_vo_ip.Prelude.{◌≡◌, refl, [], ◌∷◌, some, codes, arith}
use bbg_vo_ip.Prelude.Int.{pos}
use bbg_vo_ip.Sys.{Env, ok, times}
use bbg_vo_ip.World.{World}
use bbg_vo_ip.Terminal.{get_char, has_newline, skip_line}
use bbg_vo_ip.Testing.{answering, quiet}
use bbg_vo_ip.Dial
use bbg_vo_ip.Dial.{read_name}
use bbg_vo_ip.Dial.Service.{OneDials, control_all, suspend, resume, stop, control_all-OneDials}
use bbg_vo_ip.Dial.Lines.{read_name_lem}

-- A system in which every call answers 0.
abbrev fine : Env
fine = answering (pos 0) [] []

-- The user answers `n`.
abbrev asked : World
asked = record quiet { stdin = codes "n\n" }

-- The world in which the service has been started, and what it then makes of being suspended.
abbrev started : World
started = (Dial.start fine 1 asked).1

abbrev suspended : World
suspended = (Dial.suspend fine started).1

started-OneDials : OneDials started
unfolding Dial.start Dial.ask_for_keypad Dial.start_thread get_char has_newline times
started-OneDials = (refl, refl)

control_all-OneDials_example :
    OneDials (control_all fine (suspend ∷ suspend ∷ resume ∷ stop ∷ []) started).1
unfolding Dial.start Dial.ask_for_keypad Dial.start_thread get_char has_newline times Dial.suspend
    Dial.resume Dial.stop skip_line
control_all-OneDials_example =
    control_all-OneDials fine (suspend ∷ suspend ∷ resume ∷ stop ∷ []) started
      (control_all fine (suspend ∷ suspend ∷ resume ∷ stop ∷ []) started).1 refl started-OneDials

read_name_lem_example :
    read_name quiet ≡ (ok (some (codes "bob")), record quiet { stdin = codes "no\n" })
read_name_lem_example =
    read_name_lem (codes "bob") (codes "no\n") quiet
      (omega arith, omega arith, (omega arith, omega arith, (omega arith, omega arith, tt))) refl
