-- ===== src/Testing.antt =====
-- Concrete systems and a concrete world, on which the tests run the program.
use bbg_vo_ip.Prelude.{ℕ, false, List, [], ◌∷◌, none, some, length, replicate, Text, codes}
use bbg_vo_ip.Prelude.Int.{ℤ, pos}
use bbg_vo_ip.Sys.{Env, Log, Call, send, recv, recv_from}
use bbg_vo_ip.World.{World}
use bbg_vo_ip.AddressBook.{lookup_table}

-- Every call is answered by one number and one text, and stores the same bytes.
abbrev pub answering : ℤ → List ℕ → Text → Env
answering n bytes text = record {
  result = λ _ _. n;
  bytes = λ _ _. bytes;
  text = λ _ _. text;
  inet_pton = λ _. some 7;
}

-- A peer that takes and sends as much as it is asked.
abbrev whole : Log → Call → ℤ
whole log (send socket bytes) = pos (length bytes)
whole log (recv socket n) = pos n
whole log (recv_from socket n) = pos n
whole log _ = pos 1

abbrev sevens : Log → Call → List ℕ
sevens log (recv socket n) = replicate n 7
sevens log (recv_from socket n) = replicate n 7
sevens log _ = []

abbrev pub eager : Env
eager = record { result = whole; bytes = sevens; text = λ _ _. []; inet_pton = λ _. none }

-- Nothing has been called, and the user has typed a name.
abbrev pub quiet : World
quiet = record {
  log = [];
  stdin = codes "bob\nno\n";
  lookup_table = lookup_table;
  dial = record { input_buffer = []; service_suspended = false; stop = false };
  voice = record { listen_socket = pos 4; stop = false };
  audio = record {
    initialized = false;
    started = false;
    stop_playback = false;
    stop_recording = false;
    callback_data = none;
  };
  udp = record { initialized = false; socket_descriptor = pos 0 };
  blink_thread_running = false;
  framebuffer = 1 ∷ 2 ∷ [];
  keypad_stop = false;
  print_flag = false;
  mixer = record {
    current_volume = pos 0;
    stopping_volume = false;
    stopping_i2c = false;
    bus = pos 0;
  };
}
