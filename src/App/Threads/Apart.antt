-- ===== src/App/Threads/Apart.antt =====
-- What the parts of the threads of src/main_pretty.c leave alone: the flag of the dial service
-- and its thread, and the audio module where it is not called.
use bbg_vo_ip.Prelude.{ℕ, zero, suc, refl, Text, none, some, cond, ltb, length, before, ◌-◌, arith}
use bbg_vo_ip.Prelude.Int.{ℤ}
use bbg_vo_ip.Sys.{Env, playback_size, send, unsigned}
use bbg_vo_ip.World.{World, Address, Audio, ask, call, done}
use bbg_vo_ip.World.Keeps.{keeps_rules, Keeps, Keeps-pure, Keeps-cond, Keeps->>=, Keeps-elim}
use bbg_vo_ip.Connection.{Connection}
use bbg_vo_ip.Audio.Control
use bbg_vo_ip.Audio.Control.{set_audio, require_device}
use bbg_vo_ip.Call.Session
use bbg_vo_ip.Call.Session.{begin_call, send_silence, total_silence}
use bbg_vo_ip.Dial
use bbg_vo_ip.Dial.{set_dial, dialled, input_buffer_length, read_name, next_name, start_thread}
use bbg_vo_ip.Led.{blue, turn_on}
use bbg_vo_ip.Voice.{accept_caller}
use bbg_vo_ip.Terminal.{get_line, skip_line}
use bbg_vo_ip.App.{Unset, connect_to, begin_out, end_out, pick_up}
use bbg_vo_ip.App.Keeps.{
  write_light-Keeps, create-Keeps, accept-Keeps, begin-Keeps, skip_line-Keeps, service,
  service-IsApart, IsApart, audio-IsApart, service-Ignores,
}

module _ {B : Type 0} (f : World → B) (apart : IsApart f) where
  get_line-Keeps : (size : ℕ) → Keeps f (get_line size)
  unfolding get_line
  get_line-Keeps size = record { at = λ w. apart.stdin w _ }

  read_name-Keeps : Keeps f read_name
  unfolding read_name
  read_name-Keeps =
      Keeps->>= f (get_line input_buffer_length) (get_line-Keeps input_buffer_length) (λ local.
        Keeps-elim f local (Keeps-pure f none) (λ text.
          Keeps->>= f (cond (ltb (length (before 0 text)) (input_buffer_length - 1)) done skip_line)
            (Keeps-cond f (ltb (length (before 0 text)) (input_buffer_length - 1)) (Keeps-pure f tt)
              (skip_line-Keeps f apart))
            (λ _. Keeps-pure f (some (dialled text)))))

  pub next_name-Keeps :
      ((text : Text) → Keeps f (set_dial (λ d. record d { input_buffer = text })))
      → Keeps f next_name
  unfolding next_name
  next_name-Keeps keeps_name = Keeps->>= f read_name read_name-Keeps (λ local.
      Keeps-elim f local (Keeps-pure f none) (λ text. search (keeps_rules, keeps_name text)))

  module _ (env : Env) where
    pub send_silence-Keeps : (left : ℕ) (conn : Connection) → Keeps f (send_silence env left conn)
    unfolding send_silence
    send_silence-Keeps zero conn = search keeps_rules
    send_silence-Keeps (suc left) conn =
        Keeps->>= f (call env (send conn.socket total_silence)) (search (keeps_rules, apart.log))
          (λ _. send_silence-Keeps left conn)

    pub connect_to-Keeps : (unset : Unset) (name : Text) → Keeps f (connect_to env unset name)
    unfolding connect_to
    connect_to-Keeps unset name = search (keeps_rules, create-Keeps f apart) depth 12

    pub begin_out-Keeps : (unset : Unset) (conn : Connection) → Keeps f (begin_out env unset conn)
    unfolding begin_out
    begin_out-Keeps unset conn =
        search (keeps_rules, accept-Keeps f apart, begin-Keeps f apart, write_light-Keeps f apart)
          depth 12

    pub pick_up-Keeps : (unset : Unset) (conn : Connection) → Keeps f (pick_up env unset conn)
    unfolding pick_up
    pick_up-Keeps unset conn =
        Keeps->>= f (Session.accept env conn) (accept-Keeps f apart env conn) (λ _.
          Keeps->>= f (turn_on env blue) (write_light-Keeps f apart env _ blue) (λ _.
            Keeps->>= f skip_line (skip_line-Keeps f apart)
              (λ _. begin-Keeps f apart env unset.handshake conn)))

    pub accept_caller-Keeps : (caller : Address) → Keeps f (accept_caller env caller)
    unfolding accept_caller
    accept_caller-Keeps caller = search (keeps_rules, apart.log) depth 16

-- A name that is typed changes neither the dial service's flag and thread nor the audio module.
pub next_name-Keeps-service : Keeps service next_name
next_name-Keeps-service =
    next_name-Keeps service service-IsApart (λ text. record { at = λ w. refl })

abbrev pub audio : World → Audio
audio w = w.audio

pub next_name-Keeps-audio : Keeps audio next_name
next_name-Keeps-audio = next_name-Keeps audio audio-IsApart (λ text. record { at = λ w. refl })

module _ (env : Env) where
  pub suspend-Keeps : Keeps audio (Dial.suspend env)
  unfolding Dial.suspend
  suspend-Keeps = record { at = λ w. ground arith }

  pub resume-Keeps : Keeps audio (Dial.resume env)
  unfolding Dial.resume start_thread skip_line
  resume-Keeps = record { at = λ w. ground arith }

set_audio-Keeps : (g : Audio → Audio) → Keeps service (set_audio g)
set_audio-Keeps g = record { at = λ w. refl }

module _ (env : Env) where
  buffer_playback_queue-Keeps :
      (rounds : ℕ) → Keeps service (Control.buffer_playback_queue env rounds)
  unfolding Control.buffer_playback_queue
  buffer_playback_queue-Keeps zero = search keeps_rules
  buffer_playback_queue-Keeps (suc rounds) =
      Keeps->>= service (ask env playback_size) (search (keeps_rules, service-Ignores)) (λ size.
        Keeps-cond service (ltb (unsigned size) Control.min_playback_queue_length)
          (buffer_playback_queue-Keeps rounds) (Keeps-pure service tt))

  start-Keeps : (rounds : ℕ) (socket : ℤ) → Keeps service (Control.start env rounds socket)
  unfolding Control.start Control.start_fresh Control.run_stream
  start-Keeps rounds socket =
      search (keeps_rules, service-Ignores, set_audio-Keeps, buffer_playback_queue-Keeps) depth 20

  stop-Keeps : Keeps service (Control.stop env)
  unfolding Control.stop
  stop-Keeps = search (keeps_rules, service-Ignores, set_audio-Keeps) depth 20

  pub terminate-Keeps : (conn : Connection) → Keeps service (Session.terminate env conn)
  unfolding Session.terminate
  terminate-Keeps conn = search (keeps_rules, service-Ignores, stop-Keeps) depth 12

  pub begin_call-Keeps :
      (rounds : ℕ) (conn : Connection) → Keeps service (begin_call env rounds conn)
  unfolding begin_call
  begin_call-Keeps rounds conn =
      search
        (keeps_rules, service-Ignores, send_silence-Keeps service service-IsApart env, start-Keeps)
        depth 16

  pub end_out-Keeps : (unset : Unset) (conn : Connection) → Keeps service (end_out env unset conn)
  unfolding end_out
  end_out-Keeps unset conn =
      search (keeps_rules, write_light-Keeps service service-IsApart, terminate-Keeps) depth 12
