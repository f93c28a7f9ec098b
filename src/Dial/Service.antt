-- ===== src/Dial/Service.antt =====
-- The dial service of src/dialservice.c as a state machine: suspended or with one thread.
use bbg_vo_ip.Prelude.{
  ℕ, zero, suc, ◌+◌, ◌≡◌, refl, Bool, true, false, List, [], ◌∷◌, arith, if◌then◌else◌,
}
use bbg_vo_ip.Sys.{
  Env, Call, Result, ok, exits, fault, unfinished, create, cancel, join, dial_input, dial_keypad,
  dial_service, times, is_zero, Thread, wait,
}
use bbg_vo_ip.World.{World, Act, ◌>>◌, ◌>>=◌, done, call}
use bbg_vo_ip.Terminal.{skip_line, after_line, has_newline, get_char}
use bbg_vo_ip.Dial
use bbg_vo_ip.Dial.{start_thread, ask_for_keypad}

-- Tests for the calls that make, cancel and join a thread of the service.
abbrev pub makes_service : Call → Bool
makes_service (create dial_input) = true
makes_service (create dial_keypad) = true
makes_service _ = false

abbrev pub cancels_service : Call → Bool
cancels_service (cancel dial_service) = true
cancels_service _ = false

abbrev pub joins_service : Call → Bool
joins_service (join dial_service) = true
joins_service _ = false

-- As many threads were cancelled as made while the service is suspended, and one less while it is not;
-- each cancelled one was joined.
abbrev pub OneDials : World → Type 0
OneDials w =
    (times makes_service w.log
      ≡ times cancels_service w.log + (if w.dial.service_suspended then 0 else 1))
    × (times joins_service w.log ≡ times cancels_service w.log)

-- What the rest of the program does to a started service.
pub data Control : Type 0 where
  suspend resume stop : Control

abbrev pub control : Env → Control → Act Unit
control env suspend = Dial.suspend env
control env resume = Dial.resume env
control env stop = Dial.stop env

abbrev pub control_all : Env → List Control → Act Unit
control_all env [] = done
control_all env (c ∷ cs) = control env c >> control_all env cs

control-OneDials :
    (env : Env) (c : Control) (w w' : World)
    → control env c w ≡ (ok tt, w')
    → OneDials w
    → OneDials w'
unfolding Dial.suspend Dial.resume Dial.stop start_thread skip_line times
control-OneDials env suspend w w' e h = ground arith
control-OneDials env resume w w' e h = ground arith
control-OneDials env stop w w' e h = ground arith

-- A run that returns has a first part that returns.
first_part :
    (m k : Act Unit) (w w' : World)
    → (m >> k) w ≡ (ok tt, w')
    → (v : World) × (m w ≡ (ok tt, v)) × (k v ≡ (ok tt, w'))
first_part m k w w' e = split (m w).0 refl
  where
    split : (r : Result Unit) → (m w).0 ≡ r → (v : World) × (m w ≡ (ok tt, v)) × (k v ≡ (ok tt, w'))
    split (ok tt) h = ((m w).1, ground arith, ground arith)
    split (exits code) h = absurd (ground arith)
    split fault h = absurd (ground arith)
    split unfinished h = absurd (ground arith)

-- Through any sequence of suspend, resume and stop that does not end the program, however often each is
-- repeated, the service has exactly one thread while it is not suspended and none while it is.
pub control_all-OneDials :
    (env : Env) (cs : List Control) (w w' : World)
    → control_all env cs w ≡ (ok tt, w')
    → OneDials w
    → OneDials w'
control_all-OneDials env [] w w' e h = ground (arith, h)
control_all-OneDials env (c ∷ cs) w w' e h =
    let (v, first, rest) = first_part (control env c) (control_all env cs) w w' e in
    control_all-OneDials env cs v w' rest (control-OneDials env c w v first h)

-- Resuming a suspended service drops the rest of the terminal's line and makes a thread that reads names
-- from the terminal, whether or not the suspended thread was the keypad's; it ends the program with
-- status 1 exactly if that thread cannot be made.
pub resume_lem :
    (env : Env) (w : World)
    → w.dial.service_suspended ≡ true
    → let made = env.result w.log (create dial_input) in
      Dial.resume env w ≡ (
        (if is_zero made then ok tt else exits 1),
        record w {
          log = (create dial_input, made) ∷ w.log;
          stdin = after_line w.stdin;
          dial = record w.dial { service_suspended = false };
        },
      )
unfolding Dial.resume start_thread skip_line
resume_lem env w h = ground arith

-- Threads were cancelled as often as made: none is left.
abbrev pub NoneDials : World → Type 0
NoneDials w =
    (times makes_service w.log ≡ times cancels_service w.log)
    × (times joins_service w.log ≡ times cancels_service w.log)

-- Skipping a line changes only what the terminal has still to give.
has_newline-kept :
    (input : List ℕ) (w : World)
    → ((has_newline input w).1.log ≡ w.log) × ((has_newline input w).1.dial ≡ w.dial)
unfolding has_newline
has_newline-kept [] w = (refl, refl)
has_newline-kept (c ∷ input) w = ground (arith, has_newline-kept input w)

start_thread-OneDials :
    (env : Env) (t : Thread) (w w' : World)
    → makes_service (create t) ≡ true
    → start_thread env t w ≡ (ok tt, w')
    → NoneDials w
    → w.dial.service_suspended ≡ false
    → OneDials w'
unfolding start_thread times
start_thread-OneDials env t w w' m e none awake = ground arith

-- The world after a character was read and the wait.
abbrev waited : Env → World → World
waited env w = ((get_char >>= λ c. call env (wait 100000000)) w).1

ask_for_keypad-OneDials :
    (env : Env) (rounds : ℕ) (w w' : World)
    → ask_for_keypad env rounds w ≡ (ok tt, w')
    → NoneDials w
    → w.dial.service_suspended ≡ false
    → OneDials w'
unfolding ask_for_keypad get_char times
ask_for_keypad-OneDials env zero w w' e none awake = absurd (ground arith)
ask_for_keypad-OneDials env (suc rounds) w w' e none awake = ground (
  arith,
  ask_for_keypad-OneDials env rounds (waited env w) w',
  start_thread-OneDials env dial_keypad (waited env w) w' refl,
  has_newline-kept (waited env w).stdin (waited env w),
  start_thread-OneDials env dial_input (has_newline (waited env w).stdin (waited env w)).1 w' refl,
)

-- Once `DialService_start` returns, from a program in which no thread of the service is left, the
-- service has exactly one thread and is not suspended.
pub start-OneDials :
    (env : Env) (rounds : ℕ) (w w' : World)
    → Dial.start env rounds w ≡ (ok tt, w')
    → NoneDials w
    → OneDials w'
unfolding Dial.start
start-OneDials env rounds w w' e none =
    ask_for_keypad-OneDials env rounds
      (record w { dial = record w.dial { stop = false; service_suspended = false } }) w' e none refl
