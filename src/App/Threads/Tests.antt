-- ===== src/App/Threads/Tests.antt =====
-- The theorems about the threads of src/main_pretty.c on concrete runs.
use bbg_vo_ip.Prelude.{
  ◌≡◌, refl, Bool, List, [], ◌∷◌, codes, ◌<◌, ◌≤◌, arith, none, some, true, false, inl, inr, ◌+◌,
}
use bbg_vo_ip.Prelude.Int.{ℤ, pos}
use bbg_vo_ip.Sys.{
  Env, Log, Call, create, pa_open, pa_start, pa_close, playback_size, poll_input, times,
}
use bbg_vo_ip.World.{World, Address}
use bbg_vo_ip.Connection.{Connection}
use bbg_vo_ip.Testing.{quiet}
use bbg_vo_ip.Voice.{accept_caller}
use bbg_vo_ip.Dial
use bbg_vo_ip.Dial.{read_name, next_name, start_thread}
use bbg_vo_ip.Terminal.{get_char, skip_line, get_line, line, after_fgets}
use bbg_vo_ip.Call.Session
use bbg_vo_ip.App.{Unset, connect_to}
use bbg_vo_ip.App.Threads.{
  Phone, calling, cancelled, answering, runs, Reach, dials, accepts, answers, here, next, reading,
  accepting, asking, dial_round, voice_round, voice_answer, after, voice_end, Step,
}
use bbg_vo_ip.Call.Session.{begin_call}
use bbg_vo_ip.App.Threads.Served.{served}
use bbg_vo_ip.App.Threads.Held.{Reach-served, ends_call}
use bbg_vo_ip.App.Threads.Idle.{IsIdle, ends_in-IsIdle}
use bbg_vo_ip.App.Talk.{Works}
use bbg_vo_ip.App.Threads.Ends.{can_end_call}
use bbg_vo_ip.App.Threads.Turns.{TakesTurns, Reach-TakesTurns}
use bbg_vo_ip.App.Threads.Early.{hung_up_early, ends_audio}
use bbg_vo_ip.Audio.Flags.{makes_fill, makes_flush}

-- Threads can be made, the audio module starts, the caller's address is one of the table, and it hangs up.
abbrev taking : Log → Call → ℤ
taking log (create thread) = pos 0
taking log pa_open = pos 0
taking log pa_start = pos 0
taking log pa_close = pos 0
taking log playback_size = pos 20
taking log (poll_input socket) = pos 2
taking log _ = pos 1

abbrev calls_in : Env
calls_in = record {
  result = taking;
  bytes = λ _ _. [];
  text = λ _ _. codes "10.0.0.20";
  inet_pton = λ _. none;
}

abbrev conn : Connection
conn = record { socket = pos 1; source_host = 0 }

abbrev nobody : Address
nobody = record { name = []; inet_address = []; in_addr = 0 }

abbrev unset : Unset
unset = record { handshake = 0 ∷ 0 ∷ 0 ∷ 0 ∷ []; connection = conn; address = nobody }

abbrev idle : Phone
idle = record { world = quiet; dial = reading; voice = accepting; begun = [] }

-- The user types a name that nobody has, is asked about a call and refuses it.
abbrev typed : World
typed = (dial_round calls_in unset quiet).1

abbrev called : World
called = (voice_round calls_in unset nobody typed).1

abbrev refused : World
refused = (voice_answer calls_in unset conn called).1

-- The three steps.
a_refusal :
    Reach calls_in unset idle
      (record { world = refused; dial = reading; voice = accepting; begun = [] })
unfolding dial_round voice_round voice_answer next_name get_line bbg_vo_ip.Prelude.before line
    connect_to bbg_vo_ip.AddressBook.lookup bbg_vo_ip.Prelude.same_text accept_caller
    bbg_vo_ip.AddressBook.reverse_lookup Dial.suspend get_char after_fgets Session.reject
    Dial.resume skip_line start_thread
a_refusal =
    next
      (next (next here (dials typed reading refl refl))
        (accepts nobody called (asking conn) refl refl))
      (answers conn refused accepting [] refl refl)

Reach-TakesTurns_example :
    TakesTurns (record { world = refused; dial = reading; voice = accepting; begun = [] })
Reach-TakesTurns_example = Reach-TakesTurns calls_in unset a_refusal (refl, refl)

-- The dial service's thread is in a call that the audio module serves; the user takes another one.
abbrev old : Connection
old = record { socket = pos 8; source_host = 5 }

abbrev talking : World
talking = record quiet {
  stdin = codes "y\n";
  audio = record {
    initialized = true;
    started = true;
    stop_playback = false;
    stop_recording = false;
    callback_data = some (pos 8);
  };
}

abbrev asked : World
asked = (voice_round calls_in unset nobody talking).1

abbrev taken : World
taken = (voice_answer calls_in unset conn asked).1

abbrev both_begun : World
both_begun = (begin_call calls_in 1 conn taken).1

abbrev in_call : Phone
in_call = record { world = talking; dial = calling old; voice = accepting; begun = [] }

abbrev in_new_call : Phone
in_new_call = record { world = both_begun; dial = cancelled; voice = answering conn; begun = [] }

second_call : Reach calls_in unset in_call in_new_call
unfolding voice_round voice_answer accept_caller bbg_vo_ip.AddressBook.reverse_lookup
    bbg_vo_ip.Prelude.same_text Dial.suspend get_char bbg_vo_ip.App.pick_up Session.accept
    bbg_vo_ip.Led.write_light skip_line Session.begin bbg_vo_ip.Call.Trek.play_wav begin_call
    Session.send_silence bbg_vo_ip.Audio.Control.start
second_call =
    next
      (next (next here (accepts nobody asked (asking conn) refl refl))
        (answers conn taken (answering conn) (conn ∷ []) refl refl))
      (runs 1 conn [] [] both_begun refl refl)

Reach-served_example : served both_begun.audio ≡ some (pos 8)
unfolding second_call
Reach-served_example = Reach-served calls_in unset (pos 8) second_call refl refl

-- A call that has been taken, whose peer hangs up before its thread has run.
abbrev initialized : World
initialized = record quiet {
  stdin = codes "y\n";
  audio = record quiet.audio { initialized = true };
}

abbrev early : World
early = (voice_answer calls_in unset conn (voice_round calls_in unset nobody initialized).1).1

abbrev hung_up : World
hung_up = (voice_end calls_in unset 1 conn early).1

abbrev late : World
late = (begin_call calls_in 1 conn hung_up).1

abbrev short_call : Phone
short_call = record { world = early; dial = cancelled; voice = answering conn; begun = conn ∷ [] }

hung_up_early_example :
    Reach calls_in unset short_call (record {
      world = late;
      dial = after calls_in unset short_call hung_up;
      voice = accepting;
      begun = [];
    })
    × (served late.audio ≡ some (pos 1))
    × (times makes_fill late.log ≡ times makes_fill early.log + 1)
    × (times makes_flush late.log ≡ times makes_flush early.log + 1)
    × (times ends_audio late.log ≡ times ends_audio early.log)
unfolding voice_round voice_answer get_char accept_caller bbg_vo_ip.AddressBook.reverse_lookup
    bbg_vo_ip.Prelude.same_text Dial.suspend bbg_vo_ip.App.pick_up Session.accept
    bbg_vo_ip.Led.write_light skip_line Session.begin bbg_vo_ip.Call.Trek.play_wav voice_end
    bbg_vo_ip.App.talk bbg_vo_ip.App.end_in Session.terminate bbg_vo_ip.Audio.Control.stop
    bbg_vo_ip.App.wants_out Session.create_call_thread Dial.resume start_thread begin_call
    Session.send_silence bbg_vo_ip.Audio.Control.start bbg_vo_ip.Audio.Control.start_fresh
    bbg_vo_ip.Audio.Control.run_stream bbg_vo_ip.Audio.Control.buffer_playback_queue
hung_up_early_example =
    hung_up_early calls_in unset short_call 1 1 conn [] [] hung_up late refl refl refl refl
      (λ log. refl) (λ log. refl) refl refl

-- A call whose thread has run before its peer hangs up.
abbrev served_call : Phone
served_call = record {
  world = (begin_call calls_in 1 conn early).1;
  dial = cancelled;
  voice = answering conn;
  begun = [];
}

abbrev over_call : World
over_call = (voice_end calls_in unset 1 conn served_call.world).1

ends_in-IsIdle_example : IsIdle (record {
  world = over_call;
  dial = after calls_in unset served_call over_call;
  voice = accepting;
  begun = [];
})
unfolding voice_round voice_answer get_char accept_caller bbg_vo_ip.AddressBook.reverse_lookup
    bbg_vo_ip.Prelude.same_text Dial.suspend bbg_vo_ip.App.pick_up Session.accept
    bbg_vo_ip.Led.write_light skip_line Session.begin bbg_vo_ip.Call.Trek.play_wav voice_end
    bbg_vo_ip.App.talk bbg_vo_ip.App.end_in Session.terminate bbg_vo_ip.Audio.Control.stop
    bbg_vo_ip.App.wants_out Session.create_call_thread Dial.resume start_thread begin_call
    Session.send_silence bbg_vo_ip.Audio.Control.start bbg_vo_ip.Audio.Control.start_fresh
    bbg_vo_ip.Audio.Control.run_stream bbg_vo_ip.Audio.Control.buffer_playback_queue
ends_in-IsIdle_example =
    ends_in-IsIdle calls_in unset (λ log. refl) served_call 1 conn over_call (refl, refl) refl refl
      refl

calls_in-Works : Works calls_in
calls_in-Works = record {
  polls = λ log socket. inr refl;
  opens = λ log path mode. refl;
  prints = λ log text. refl;
  creates = λ log thread. refl;
}

can_end_call_example :
    (q : Phone) × (s : Step calls_in unset short_call q) × (ends_call calls_in unset s ≡ true)
can_end_call_example = can_end_call calls_in unset calls_in-Works short_call conn (inl refl)

-- A name that somebody has is typed, and that peer hangs up.
