-- ===== src/App/Threads/Idle.antt =====
-- How an incoming call of src/main_pretty.c leaves the phone once its thread has started the audio module.
use bbg_vo_ip.Prelude.{ℕ, ◌≡◌, refl, true, false, none, arith, ap, ◌∙◌, List, Bool, ◌∷◌}
use bbg_vo_ip.Prelude.Int.{pos}
use bbg_vo_ip.Sys.{Env, Log, ok, pa_close, shutdown, join, wait, fill_playback, flush_record}
use bbg_vo_ip.World.{World, Act, Audio, ◌>>◌, call}
use bbg_vo_ip.World.Keeps.{Keeps, Keeps-pure, Keeps-call}
use bbg_vo_ip.World.Triple.{Triple, triple, run_triple, Triple->>=, Triple-Keeps_where}
use bbg_vo_ip.Connection.{Connection}
use bbg_vo_ip.Audio.Control
use bbg_vo_ip.Audio.Control.{set_audio}
use bbg_vo_ip.Call.Session
use bbg_vo_ip.Led.{red, blue}
use bbg_vo_ip.Dial
use bbg_vo_ip.App.{Unset, end_in}
use bbg_vo_ip.App.Keeps.{audio-IsApart, talk-Keeps, write_light-Keeps, service}
use bbg_vo_ip.App.Threads.Apart.{audio, resume-Keeps}
use bbg_vo_ip.App.Threads.Turns.{TakesTurns}
use bbg_vo_ip.App.Threads.Rounds.{voice_end_lem, has_terminal}
use bbg_vo_ip.App.Threads.{
  Phone, answering, accepting, reading, voice_end, after, dial_after, Dialling,
}
use bbg_vo_ip.Dial.{service_history}

abbrev Started : Audio → Type 0
Started a = a.started ≡ true

abbrev Stopped : Audio → Type 0
Stopped a = (a.started ≡ false) × (a.callback_data ≡ none)

-- Nothing goes on: no call, nobody is asked, and a name can be typed.
abbrev pub IsIdle : Phone → Type 0
IsIdle p =
    (p.dial ≡ reading)
    × (p.voice ≡ accepting)
    × (p.world.dial.service_suspended ≡ false)
    × (p.world.audio.started ≡ false)
    × (p.world.audio.callback_data ≡ none)

module _ (env : Env) (unset : Unset) (closes : (log : Log) → env.result log pa_close ≡ pos 0) where
  stop_lem : Triple (λ w. Started w.audio) (Control.stop env) (λ _ w. Stopped w.audio)
  unfolding Control.stop
  stop_lem = triple (λ w w' r h e. ground (
    arith,
    closes
        ((set_audio (λ a. record a { stop_playback = true; stop_recording = true })
            >> call env (join fill_playback)
            >> call env (wait 1000000000)
            >> call env (join flush_record))
          w).1.log,
  ))

  before :
      {m k : Act Unit}
      → Keeps audio m
      → Triple (λ w. Started w.audio) k (λ _ w. Stopped w.audio)
      → Triple (λ w. Started w.audio) (m >> k) (λ _ w. Stopped w.audio)
  before {m} km hk =
      Triple->>= (λ w. Started w.audio) (λ _ w. Stopped w.audio) (λ _ w. Started w.audio) m
        (Triple-Keeps_where Started km) (λ _. hk)

  voice_end_stops :
      (rounds : ℕ) (conn : Connection)
      → Triple (λ w. Started w.audio) (voice_end env unset rounds conn) (λ _ w. Stopped w.audio)
  unfolding voice_end end_in Session.terminate
  voice_end_stops rounds conn = before (talk-Keeps audio audio-IsApart env unset rounds conn) (
      before (write_light-Keeps audio audio-IsApart env _ red)
        (before (write_light-Keeps audio audio-IsApart env _ blue) terminated))
    where
      terminated :
          Triple
            (λ w. Started w.audio)
            (Session.terminate env conn >> Dial.resume env)
            (λ _ w. Stopped w.audio)
      terminated =
          Triple->>= (λ w. Started w.audio) (λ _ w. Stopped w.audio) (λ _ w. Stopped w.audio)
            (Session.terminate env conn)
            (before (Keeps-call audio env (shutdown conn.socket) (audio-IsApart.log _ refl)) (
              Triple->>= (λ w. Started w.audio) (λ _ w. Stopped w.audio) (λ _ w. Stopped w.audio)
                (Control.stop env) stop_lem
                (λ _. Triple-Keeps_where Stopped (Keeps-pure audio tt))))
            (λ _. Triple-Keeps_where Stopped (resume-Keeps env))

  -- If the two threads take turns at the terminal, the audio module has been started, PortAudio can
  -- always close its stream, and the thread of an incoming call comes back from it, then the phone
  -- is as before the call: the module is stopped and serves nobody, the dial service is not
  -- suspended and has its thread again, and the voice server waits for a caller.
  pub ends_in-IsIdle :
      (p : Phone) (rounds : ℕ) (conn : Connection) (w : World)
      → TakesTurns p
      → p.voice ≡ answering conn
      → p.world.audio.started ≡ true
      → voice_end env unset rounds conn p.world ≡ (ok tt, w)
      → IsIdle (record p { world = w; voice = accepting; dial = after env unset p w })
  ends_in-IsIdle p rounds conn w turns at started e =
      let (off, nobody) = run_triple (voice_end_stops rounds conn) p.world w tt started e in
      let history = service_history p.world.log in
      let after_end : service w ≡ (false, true ∷ history) =
        run_triple (voice_end_lem env unset true history rounds conn) p.world w tt
          (ap (λ b. (b, history)) (turns.0 ∙ ap has_terminal at)) e in
      (
        ap (λ x. dial_after history x.1 p.dial) after_end ∙ created history p.dial,
        refl,
        ap (λ x. x.0) after_end,
        off,
        nobody,
      )
    where
      created : (l : List Bool) (d : Dialling) → dial_after l (true ∷ l) d ≡ reading
      created l d = ground arith
