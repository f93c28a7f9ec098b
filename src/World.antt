-- ===== src/World.antt =====
-- The program's static variables, file by file, and actions that read and write them, call the
-- system, and may end the program.
pub mod Ends
pub mod Gives
pub mod Keeps
pub mod Triple
pub mod Returns
use bbg_vo_ip.Prelude.{cond, ℕ, Bool, Text, List, ◌∷◌, Option}
use bbg_vo_ip.Prelude.Int.{ℤ}
use bbg_vo_ip.Sys.{Env, Call, Log, Result, ok, exits, fault, unfinished}

-- `Address` of include/addressbook.h; a `char` array is the text up to its NUL.
pub record Address : Type 0 where
  pub name : Text
  pub inet_address : Text
  pub in_addr : ℕ

-- The statics of src/dialservice.c
pub record Dial : Type 0 where
  pub input_buffer : Text
  pub service_suspended : Bool
  pub stop : Bool

-- The statics of src/voiceserver.c
pub record Voice : Type 0 where
  pub listen_socket : ℤ
  pub stop : Bool

-- The flags of src/audio.c, and the socket of the connection that `callbackData` points to
pub record Audio : Type 0 where
  pub initialized : Bool
  pub started : Bool
  pub stop_playback : Bool
  pub stop_recording : Bool
  pub callback_data : Option ℤ

-- The statics of src/socket.c
pub record Udp : Type 0 where
  pub initialized : Bool
  pub socket_descriptor : ℤ

-- The statics of volume_mixer/src/volume_mixer.c and volume_mixer/src/i2c.c, a program of its own;
-- `bus` is `BusFileDescriptors[BUS1]`, the only entry in use.
pub record Mixer : Type 0 where
  pub current_volume : ℤ
  pub stopping_volume : Bool
  pub stopping_i2c : Bool
  pub bus : ℤ

pub record World : Type 0 where
  pub log : Log
  -- the bytes that the terminal has still to give; no more means end of file
  pub stdin : List ℕ
  pub lookup_table : List Address
  pub dial : Dial
  pub voice : Voice
  pub audio : Audio
  pub udp : Udp
  -- src/led.c
  pub blink_thread_running : Bool
  -- src/trek.c
  pub framebuffer : List ℕ
  -- src/keypad.c
  pub keypad_stop : Bool
  pub print_flag : Bool
  pub mixer : Mixer

abbrev pub Act : Type 0 → Type 0
Act A = World → Result A × World

module _ {A : Type 0} where
  abbrev pub pure : A → Act A
  pure a w = (ok a, w)

  abbrev pub exit : ℕ → Act A
  exit code w = (exits code, w)

  abbrev pub access_fault : Act A
  access_fault w = (fault, w)

  abbrev pub out_of_rounds : Act A
  out_of_rounds w = (unfinished, w)

  abbrev pub gets : (World → A) → Act A
  gets f w = (ok (f w), w)

abbrev pub modify : (World → World) → Act Unit
modify f w = (ok tt, f w)

abbrev pub done : Act Unit
done = pure tt

module _ {A B : Type 0} where
  abbrev pub continue : Result A → (A → Act B) → Act B
  continue (ok a) f w = f a w
  continue (exits code) f w = (exits code, w)
  continue fault f w = (fault, w)
  continue unfinished f w = (unfinished, w)

  infixl 5 ◌>>=◌
  abbrev pub ◌>>=◌ : Act A → (A → Act B) → Act B
  ◌>>=◌ m f w = continue (m w).0 f (m w).1

-- `if (b) { exit(code); }`
abbrev pub exit_if : Bool → ℕ → Act Unit
exit_if b code = cond b (exit code) done

infixl 5 ◌>>◌
abbrev pub ◌>>◌ : {B : Type 0} → Act Unit → Act B → Act B
m >> k = m >>= λ _. k

module _ (env : Env) where
  -- A call whose number is looked at.
  abbrev pub ask : Call → Act ℤ
  ask c w = (ok (env.result w.log c), record w { log = (c, env.result w.log c) ∷ w.log })

  -- A call whose number is ignored.
  abbrev pub call : Call → Act Unit
  call c w = (ok tt, record w { log = (c, env.result w.log c) ∷ w.log })

  -- A call that stores bytes through a pointer.
  abbrev pub ask_bytes : Call → Act (ℤ × List ℕ)
  ask_bytes c w = (
    ok (env.result w.log c, env.bytes w.log c),
    record w { log = (c, env.result w.log c) ∷ w.log },
  )

  -- A call that hands out a text.
  abbrev pub ask_text : Call → Act (ℤ × Text)
  ask_text c w = (
    ok (env.result w.log c, env.text w.log c),
    record w { log = (c, env.result w.log c) ∷ w.log },
  )
