-- ===== src/Dial.antt =====
-- src/dialservice.c and include/dialservice.h: the thread that asks whom to call.
pub mod Service
pub mod Lines
pub mod Question
mod Tests
use bbg_vo_ip.Prelude.{
  ℕ, zero, suc, ◌-◌, ◌%◌, ◌==◌, Bool, true, false, not, cond, ◌||◌, Option, none, some, List, Text,
  ltb, length, before, take, if◌then◌else◌, ◌∷◌, [],
}
use bbg_vo_ip.Prelude.Int.{ℤ, pos, negsuc}
use bbg_vo_ip.Sys.{
  Env, Thread, dial_input, dial_keypad, dial_service, create, cancel, join, wait, unsigned, is_zero,
  Log, Call,
}
use bbg_vo_ip.World.{
  World, Dial, Address, Act, ◌>>=◌, ◌>>◌, pure, exit_if, out_of_rounds, gets, modify, done, ask,
  call,
}
use bbg_vo_ip.Terminal.{newline, get_char, get_line, skip_line, skip_line_char}
use bbg_vo_ip.AddressBook.{LookupResult, name_found, reverse_lookup}
use bbg_vo_ip.Led.{red, turn_on, turn_off}

abbrev pub input_buffer_length : ℕ
input_buffer_length = 32

abbrev pub set_dial : (Dial → Dial) → Act Unit
set_dial f = modify (λ w. record w { dial = f w.dial })

-- An `int` of `fgetc` put into a `char`, which is unsigned on the target.
abbrev pub to_char : ℤ → ℕ
to_char c = unsigned c % 256

abbrev pub is_yes : ℕ → Bool
is_yes c = c == b'y' || c == b'Y'

abbrev pub is_no : ℕ → Bool
is_no c = c == b'n' || c == b'N'

-- The text that is dialled: the line up to its end.
abbrev pub dialled : Text → Text
dialled local = before newline (before 0 local)

abbrev is_name_found : LookupResult → Bool
is_name_found name_found = true
is_name_found _ = false

module _ (env : Env) where
  -- `startThread` and `startKeypadThread`
  unfoldable pub start_thread : Thread → Act Unit
  start_thread thread = do res ← ask env (create thread); exit_if (not (is_zero res)) 1

  -- The `while` of `DialService_start`
  unfoldable pub ask_for_keypad : ℕ → Act Unit
  ask_for_keypad zero = out_of_rounds
  ask_for_keypad (suc rounds) = do
    c ← get_char
    call env (wait 100000000)
    let again = ask_for_keypad rounds
    cond (is_yes (to_char c)) (start_thread dial_keypad)
        (cond (is_no (to_char c)) (do skip_line_char; start_thread dial_input) again)

  -- `DialService_start`
  unfoldable pub start : ℕ → Act Unit
  start rounds = do
    set_dial (λ d. record d { stop = false; service_suspended = false })
    ask_for_keypad rounds

  -- `DialService_suspend`
  unfoldable pub suspend : Act Unit
  suspend = do
    suspended ← gets (λ w. w.dial.service_suspended)
    cond suspended done (do
      set_dial (λ d. record d { service_suspended = true })
      call env (cancel dial_service)
      call env (join dial_service))

  -- `DialService_resume`
  unfoldable pub resume : Act Unit
  resume = do
    suspended ← gets (λ w. w.dial.service_suspended)
    cond (not suspended) done (do
      skip_line
      set_dial (λ d. record d { service_suspended = false })
      start_thread dial_input)

  -- `DialService_stop`
  unfoldable pub stop : Act Unit
  unfolding suspend
  stop = do set_dial (λ d. record d { stop = true }); suspend

-- The calls that create the service's thread and those that cancel it.
abbrev pub creates_service : Call → Bool
creates_service (create dial_input) = true
creates_service (create dial_keypad) = true
creates_service _ = false

abbrev pub cancels_service : Call → Bool
cancels_service (cancel dial_service) = true
cancels_service _ = false

-- The history of that thread in a log, newest first: `true` where it was created, `false` where it was
-- cancelled.
abbrev pub service_history : Log → List Bool
service_history [] = []
service_history ((c, n) ∷ log) =
    let before = service_history log in
    if creates_service c
    then true ∷ before
    else if cancels_service c
    then false ∷ before
    else before

-- What a round of `getInput` reads: a line, and the rest of one that fills the buffer; nothing at the
-- end of the file.
unfoldable pub read_name : Act (Option Text)
read_name = do
  local ← get_line input_buffer_length
  elim local [
    | none ↦ pure none
    | some text ↦ (do
      cond (ltb (length (before 0 text)) (input_buffer_length - 1)) done skip_line
      pure (some (dialled text)))
  ]

-- The name that a round of `getInput` hands to the event handler, if it reads one.
unfoldable pub next_name : Act (Option Text)
unfolding read_name
next_name = do
  local ← read_name
  elim local [
    | none ↦ pure none
    | some text ↦ (do
      set_dial (λ d. record d { input_buffer = text })
      name ← gets (λ w. w.dial.input_buffer)
      pure (some name))
  ]

-- The `while` of `getInput`, with the event handler that was given to `DialService_start`
unfoldable pub get_input : (Text → Act Unit) → ℕ → Act Unit
unfolding next_name
get_input handler zero = out_of_rounds
get_input handler (suc rounds) = do
  dial ← gets (λ w. w.dial)
  let again = get_input handler rounds
  cond (dial.stop || dial.service_suspended) done
      (do typed ← next_name; elim typed [ none ↦ again | some name ↦ (do handler name; again) ])

module _ (env : Env) (get_dial : Act Text) (handler : Text → Act Unit) where
  -- `getKeypadInput`; `get_dial` is `KEYPAD_getDial`, and `dest` what the variable held before.
  unfoldable pub get_keypad_input : ℕ → Address → Act Unit
  get_keypad_input zero dest = out_of_rounds
  get_keypad_input (suc rounds) dest = do
    ip_addr ← get_dial
    table ← gets (λ w. w.lookup_table)
    let (result, dest') = reverse_lookup table ip_addr dest
    let again = get_keypad_input rounds dest'
    cond (is_name_found result)
        (do
          turn_off env red
          set_dial (λ d. record d { input_buffer = dest'.name })
          name ← gets (λ w. w.dial.input_buffer)
          handler name)
        (do turn_on env red; again)
