-- ===== src/App/Threads.antt =====
-- The threads that src/main_pretty.c runs at the same time: getInput of src/dialservice.c with onDial,
-- acceptConnections of src/voiceserver.c with handleIncomingCall, and beginCall of src/call.c for each call. Each is cut
-- where it waits for the terminal, for a caller, or for the end of a call, and a step takes one of them
-- from one cut to the next. A connection, which the code hands on as a pointer to a variable of the thread,
-- is the value that it has there when it is handed on.
pub mod Apart
pub mod Served
pub mod Rounds
pub mod Turns
pub mod Held
pub mod Early
pub mod Idle
pub mod Ends
mod Tests
use bbg_vo_ip.Prelude.{
  ℕ, ◌≡◌, Bool, true, false, not, ◌&&◌, ◌||◌, cond, List, [], ◌∷◌, ◌++◌, Text, Option, none, some,
  if◌then◌else◌, ◌==◌, length,
}
use bbg_vo_ip.Sys.{Env, ok}
use bbg_vo_ip.World.{World, Address, Act, ◌>>=◌, ◌>>◌, pure, gets}
use bbg_vo_ip.Connection.{Connection}
use bbg_vo_ip.Call.Session
use bbg_vo_ip.Call.Session.{CallResult, call_start, begin_call}
use bbg_vo_ip.Dial
use bbg_vo_ip.Dial.{to_char, is_yes, is_no, next_name, service_history}
use bbg_vo_ip.Terminal.{get_char}
use bbg_vo_ip.Voice.{accept_caller}
use bbg_vo_ip.App.{Unset, connect_to, begin_out, end_out, pick_up, end_in, talk}

-- Where the dial service's thread is: about to read a name, with a connection, in a call, at its end, or
-- cancelled by `DialService_suspend`, which is possible at each of these.
pub data Dialling : Type 0 where
  reading over cancelled : Dialling
  connected : Connection → Dialling
  calling : Connection → Dialling

-- Where the voice server's thread is: about to accept a caller, asking the user, in a call.
pub data Answering : Type 0 where
  accepting closed : Answering
  asking : Connection → Answering
  answering : Connection → Answering

-- `begun` are the threads of calls that have been created and have not run yet.
pub record Phone : Type 0 where
  pub world : World
  pub dial : Dialling
  pub voice : Answering
  pub begun : List Connection

-- What becomes of the dial service's thread in an action of the voice server's, from the thread's history
-- before and after it: it is cancelled by the `pthread_cancel` of `DialService_suspend`, and is a new
-- one at the start of its loop after the `startThread` of `DialService_resume`.
abbrev pub last_event : List Bool → Dialling → Dialling
last_event [] d = d
last_event (true ∷ earlier) d = reading
last_event (false ∷ earlier) d = cancelled

abbrev pub dial_after : List Bool → List Bool → Dialling → Dialling
dial_after old new d = if length new == length old then d else last_event new d

-- The thread that a `Call_begin` has created.
abbrev pub begun_by : CallResult → Connection → List Connection
begun_by call_start conn = conn ∷ []
begun_by _ conn = []

module _ (env : Env) (unset : Unset) where
  -- A round of `getInput` up to the connection
  unfoldable pub dial_round : Act Dialling
  dial_round = do
    dial ← gets (λ w. w.dial)
    cond (dial.stop || dial.service_suspended) (pure over) (do
      typed ← next_name
      elim typed [
        | none ↦ pure reading
        | some name ↦ (do
          to ← connect_to env unset name
          pure (elim to [ none ↦ reading | some conn ↦ connected conn ]))
      ])

  -- The rest of `onDial`, before and from the call on
  unfoldable pub dial_begin : Connection → Act (Dialling × List Connection)
  dial_begin conn = do
    on ← begin_out env unset conn
    pure (cond on (calling conn, conn ∷ []) (reading, []))

  unfoldable pub dial_end : ℕ → Connection → Act Unit
  dial_end rounds conn = do talk env unset rounds conn; end_out env unset conn

  -- A round of `acceptConnections` up to the question
  unfoldable pub voice_round : Address → Act Answering
  voice_round caller = do
    stopped ← gets (λ w. w.voice.stop)
    cond stopped (pure closed) (do
      (_, known) ← accept_caller env caller
      elim known [ none ↦ pure accepting | some conn ↦ (do Dial.suspend env; pure (asking conn)) ])

  -- A round of the question in `handleIncomingCall`, and what follows on an answer up to the call
  unfoldable pub voice_answer : Connection → Act (Answering × List Connection)
  voice_answer conn = do
    c ← get_char
    cond (is_yes (to_char c))
        (do result ← pick_up env unset conn; pure (answering conn, begun_by result conn))
        (cond (is_no (to_char c))
          (do Session.reject env conn; Dial.resume env; pure (accepting, []))
          (pure (asking conn, [])))

  -- The rest of `handleIncomingCall`
  unfoldable pub voice_end : ℕ → Connection → Act Unit
  voice_end rounds conn = do talk env unset rounds conn; end_in env unset conn

  -- What the dial service's thread is after the voice server's thread took the world from one to the next.
  abbrev pub after : Phone → World → Dialling
  after p w = dial_after (service_history p.world.log) (service_history w.log) p.dial

  pub data Step (p : Phone) : Phone → Type 0 where
    dials :
        (w : World) (d : Dialling)
        → p.dial ≡ reading
        → dial_round p.world ≡ (ok d, w)
        → Step p (record p { world = w; dial = d })
    begins_out :
        (conn : Connection) (w : World) (d : Dialling) (new : List Connection)
        → p.dial ≡ connected conn
        → dial_begin conn p.world ≡ (ok (d, new), w)
        → Step p (record p { world = w; dial = d; begun = p.begun ++ new })
    ends_out :
        (rounds : ℕ) (conn : Connection) (w : World)
        → p.dial ≡ calling conn
        → dial_end rounds conn p.world ≡ (ok tt, w)
        → Step p (record p { world = w; dial = reading })
    accepts :
        (caller : Address) (w : World) (v : Answering)
        → p.voice ≡ accepting
        → voice_round caller p.world ≡ (ok v, w)
        → Step p (record p { world = w; voice = v; dial = after p w })
    answers :
        (conn : Connection) (w : World) (v : Answering) (new : List Connection)
        → p.voice ≡ asking conn
        → voice_answer conn p.world ≡ (ok (v, new), w)
        → Step p (record p { world = w; voice = v; dial = after p w; begun = p.begun ++ new })
    ends_in :
        (rounds : ℕ) (conn : Connection) (w : World)
        → p.voice ≡ answering conn
        → voice_end rounds conn p.world ≡ (ok tt, w)
        → Step p (record p { world = w; voice = accepting; dial = after p w })
    runs :
        (rounds : ℕ) (conn : Connection) (sooner later : List Connection) (w : World)
        → p.begun ≡ sooner ++ conn ∷ later
        → begin_call env rounds conn p.world ≡ (ok tt, w)
        → Step p (record p { world = w; begun = sooner ++ later })

  pub data Reach (p : Phone) : Phone → Type 0 where
    here : Reach p p
    next : {p1 p2 : Phone} → Reach p p1 → Step p1 p2 → Reach p p2
