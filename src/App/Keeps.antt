-- ===== src/App/Keeps.antt =====
-- What the parts of a call leave alone: all statics but the log, the terminal and the greeting's buffer, and the
-- audio module's flags where it is not called.
use bbg_vo_ip.Prelude.{
  ℕ, zero, suc, ◌≡◌, refl, List, Text, Bool, true, false, overwrite, codes, same_text, arith,
}
use bbg_vo_ip.Prelude.Int.{ℤ}
use bbg_vo_ip.Sys.{
  Env, read_file, send, open_file, seek_file, close_file, recv, poll_input, is_zero, Call,
}
use bbg_vo_ip.World.{World, Address, modify, ask, call, ask_bytes, gets, exit_if}
use bbg_vo_ip.World.Keeps.{
  Keeps, Keeps-pure, Keeps-gets, Keeps-cond, Keeps->>=, Keeps-call, Keeps-ask_bytes, keeps_rules,
  Ignores, is_plain,
}
use bbg_vo_ip.Connection
use bbg_vo_ip.Connection.{Connection}
use bbg_vo_ip.Call.Session
use bbg_vo_ip.Call.Session.{call_start, call_fail, call_reject, int_bytes, handshake_after}
use bbg_vo_ip.Call.Trek
use bbg_vo_ip.Audio.Control.{framebuffer_size}
use bbg_vo_ip.App.{Unset, talk, wants_out, has_input, hung_up}
use bbg_vo_ip.Led.{Light, write_light}
use bbg_vo_ip.Terminal.{get_char, skip_line}
use bbg_vo_ip.Dial.{service_history, creates_service, cancels_service}

-- A part of the statics that is neither the terminal nor the greeting's buffer, nor what most calls of
-- the log change.
pub record IsApart {B : Type 0} (f : World → B) : Type 0 where
  pub log : (c : Call) → is_plain c ≡ true → Ignores f c
  pub stdin : (w : World) (l : List ℕ) → f (record w { stdin = l }) ≡ f w
  pub framebuffer : (w : World) (l : List ℕ) → f (record w { framebuffer = l }) ≡ f w

module _ {B : Type 0} (f : World → B) (apart : IsApart f) where
  pub get_char-Keeps : Keeps f get_char
  unfolding get_char
  get_char-Keeps = record { at = λ w. apart.stdin w _ }

  pub skip_line-Keeps : Keeps f skip_line
  unfolding skip_line
  skip_line-Keeps = record { at = λ w. apart.stdin w _ }

  set_framebuffer-Keeps :
      (bytes : List ℕ)
      → Keeps f (modify (λ w. record w { framebuffer = overwrite bytes w.framebuffer }))
  set_framebuffer-Keeps bytes = record { at = λ w. apart.framebuffer w _ }

  module _ (env : Env) where
    pub write_light-Keeps : (text : Text) (light : Light) → Keeps f (write_light env text light)
    unfolding write_light
    write_light-Keeps text light = search (keeps_rules, apart.log) depth 12

    pub accept-Keeps : (conn : Connection) → Keeps f (Session.accept env conn)
    unfolding Session.accept
    accept-Keeps conn = search (keeps_rules, apart.log)

    pub reject-Keeps : (conn : Connection) → Keeps f (Session.reject env conn)
    unfolding Session.reject
    reject-Keeps conn = search (keeps_rules, apart.log)

    pub create-Keeps :
        (conn : Connection) (addr : Address) → Keeps f (Connection.create env conn addr)
    unfolding Connection.create
    create-Keeps conn addr = search (keeps_rules, apart.log) depth 12

    play_frames-Keeps : (socket : ℤ) (left : ℕ) → Keeps f (Trek.play_frames env socket left)
    unfolding Trek.play_frames
    play_frames-Keeps socket zero = search keeps_rules
    play_frames-Keeps socket (suc left) =
        Keeps->>= f (ask_bytes env (read_file framebuffer_size)) (search (keeps_rules, apart.log))
          (λ (n, bytes).
            Keeps->>= f (modify (λ w. record w { framebuffer = overwrite bytes w.framebuffer }))
              (set_framebuffer-Keeps bytes)
              (λ _. Keeps->>= f (gets (λ w. w.framebuffer)) (Keeps-gets f _) (λ frame.
                Keeps->>= f (call env (send socket frame)) (search (keeps_rules, apart.log))
                  (λ _. play_frames-Keeps socket left))))

    play_wav-Keeps : (socket : ℤ) (frames : ℕ) → Keeps f (Trek.play_wav env socket frames)
    unfolding Trek.play_wav
    play_wav-Keeps socket frames =
        Keeps->>= f (ask env (open_file (codes "initSig.wav") (codes "r")))
          (search (keeps_rules, apart.log))
          (λ wav. Keeps->>= f (exit_if (is_zero wav) 1) (search keeps_rules) (λ _.
            Keeps->>= f (call env (seek_file 44)) (search (keeps_rules, apart.log)) (λ _.
              Keeps->>= f (Trek.play_frames env socket frames) (play_frames-Keeps socket frames)
                (λ _. Keeps-call f env close_file (apart.log _ refl)))))

    create_call_thread-Keeps : (conn : Connection) → Keeps f (Session.create_call_thread env conn)
    unfolding Session.create_call_thread
    create_call_thread-Keeps conn = search (keeps_rules, apart.log)

    pub begin-Keeps : (unset : List ℕ) (conn : Connection) → Keeps f (Session.begin env unset conn)
    unfolding Session.begin
    begin-Keeps unset conn =
        Keeps->>= f (ask_bytes env (recv conn.socket 4))
          (Keeps-ask_bytes f env _ (apart.log _ refl))
          (λ (got, bytes).
            Keeps-cond f (same_text (handshake_after unset got bytes) (int_bytes call_reject))
              (Keeps-pure f call_fail)
              (Keeps->>= f (Trek.play env conn.socket) (play_wav-Keeps conn.socket Trek.num_buffers)
                (λ _.
                  Keeps->>= f (Session.create_call_thread env conn) (create_call_thread-Keeps conn)
                    (λ _. Keeps-pure f call_start))))

    wants_out-Keeps : (unset : Unset) (input : Bool) → Keeps f (wants_out env unset input)
    unfolding wants_out
    wants_out-Keeps unset true = search (keeps_rules, get_char-Keeps)
    wants_out-Keeps unset false = search keeps_rules

    pub talk-Keeps :
        (unset : Unset) (rounds : ℕ) (conn : Connection) → Keeps f (talk env unset rounds conn)
    unfolding talk
    talk-Keeps unset zero conn = search keeps_rules
    talk-Keeps unset (suc rounds) conn =
        Keeps->>= f (ask env (poll_input conn.socket)) (search (keeps_rules, apart.log)) (λ ret.
          Keeps->>= f (wants_out env unset (has_input ret)) (wants_out-Keeps unset (has_input ret))
            (λ out.
              Keeps-cond f out (Keeps-pure f tt)
                (Keeps-cond f (hung_up ret) (Keeps-pure f tt) (talk-Keeps unset rounds conn))))

abbrev pub suspended : World → Bool
suspended w = w.dial.service_suspended

-- Whether the dial service is suspended, with the history of its thread, and the audio module's flags, are
-- such parts.
abbrev pub service : World → Bool × List Bool
service w = (suspended w, service_history w.log)

pub service-Ignores :
    (c : Call) → creates_service c ≡ false → cancels_service c ≡ false → Ignores service c
service-Ignores c made cancelled = record { at = λ w n. rw (made, cancelled) refl }

plain_lem :
    (c : Call) → is_plain c ≡ true → (creates_service c ≡ false) × (cancels_service c ≡ false)
plain_lem c e = ground arith

pub service-IsApart : IsApart service
service-IsApart = record {
  log = λ c e. service-Ignores c (plain_lem c e).0 (plain_lem c e).1;
  stdin = λ w l. refl;
  framebuffer = λ w l. refl;
}

pub audio-IsApart : IsApart (λ w. w.audio)
audio-IsApart = record {
  log = λ c e. record { at = λ w n. refl };
  stdin = λ w l. refl;
  framebuffer = λ w l. refl;
}
