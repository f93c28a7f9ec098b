-- ===== src/Sys.antt =====
-- The system that the program runs on, as far as the program can see it: which calls it makes, in
-- which order, and what each returns. What the system answers is a parameter, `Env`.
use bbg_vo_ip.Prelude.{
  ℕ, ◌-◌, ◌^◌, ◌%◌, ◌==◌, suc, if◌then◌else◌, Bool, Text, List, [], ◌∷◌, Option,
}
use bbg_vo_ip.Prelude.Int.{ℤ, pos, negsuc}

-- The threads that the program starts; `dial_service` is whichever of `dial_input` and `dial_keypad`
-- the variable `dialServiceThread` names.
pub data Thread : Type 0 where
  dial_input dial_keypad dial_service voice_server fill_playback flush_record blink volume display :
      Thread
  -- `recvThread` and `sendThread` of main_nonblocking_audio.c
  loop_recv loop_send : Thread
  -- `tcpListenThread` of driver/call.c
  tcp_listen : Thread
  call_poll : ℤ → Thread

-- The calls that leave the program, with the arguments that matter. File descriptors are `int`s.
pub data Call : Type 0 where
  socket : Call
  connect : ℤ → ℕ → Call
  bind : ℤ → ℕ → Call
  listen : ℤ → Call
  accept : ℤ → Call
  shutdown : ℤ → Call
  close : ℤ → Call
  send : ℤ → List ℕ → Call
  recv : ℤ → ℕ → Call
  send_to : ℤ → List ℕ → List ℕ → Call
  recv_from : ℤ → ℕ → Call
  -- poll for a hang-up of the peer, or for that and for input on the terminal
  poll_hang_up : ℤ → Call
  poll_input : ℤ → Call
  create : Thread → Call
  cancel : Thread → Call
  join : Thread → Call
  open_file : Text → Text → Call
  seek_file : ℕ → Call
  read_file : ℕ → Call
  print_file : Text → Call
  -- `fgets(buffer, n, file)`
  read_line : ℕ → Call
  close_file : Call
  inet_ntop : ℕ → Call
  wait : ℕ → Call
  pa_initialize pa_terminate pa_open pa_start pa_close pa_realtime pa_active : Call
  pa_device : ℤ → Call
  -- `fprintf(file, "%d", n)`
  print_number : ℤ → Call
  -- the display's bus: a device file opened, bound to an address, and written to
  open_device : Text → Call
  bind_device : ℤ → ℕ → Call
  write_device : ℤ → List ℕ → Call
  -- ALSA's mixer; the number of `snd_range` is the largest volume
  snd_open snd_attach snd_register snd_load snd_find snd_range snd_close : Call
  snd_set : ℤ → Call
  -- calls of the audio module's own buffers: the queue's length, and emptying, filling and freeing
  playback_size clear_queues make_pools free_pools : Call

-- What has been called and the number that each call returned, newest first.
abbrev pub Log : Type 0
Log = List (Call × ℤ)

-- How the system answers a call after a history: the number returned, the bytes stored through a
-- pointer, and a text. NULL is 0, EOF is -1, and a bit set of `poll` is its number.
pub record Env : Type 0 where
  pub result : Log → Call → ℤ
  pub bytes : Log → Call → List ℕ
  pub text : Log → Call → Text
  -- `inet_pton(AF_INET, …)`: the address, if the text is one
  pub inet_pton : Text → Option ℕ

-- How a piece of the program ends: with a value, by `exit`, by an access outside an object, or not
-- within the rounds that a loop was given.
pub data Result {ℓ} (A : Type ℓ) : Type ℓ where
  ok : A → Result A
  exits : ℕ → Result A
  fault : Result A
  unfinished : Result A

-- `size_t` of the 32-bit target, and an `ssize_t` or `int` read as one.
abbrev pub word : ℕ
word = 2 ^ 32

abbrev pub unsigned : ℤ → ℕ
unsigned (pos n) = n % word
unsigned (negsuc n) = word - 1 - n % word

abbrev pub is_negative : ℤ → Bool
is_negative (pos n) = Bool.false
is_negative (negsuc n) = Bool.true

abbrev pub is_zero : ℤ → Bool
is_zero (pos ℕ.zero) = Bool.true
is_zero _ = Bool.false

-- Two numbers of C compared for equality.
infix 50 ◌==ℤ◌
abbrev pub ◌==ℤ◌ : ℤ → ℤ → Bool
pos a ==ℤ pos b = a == b
negsuc a ==ℤ negsuc b = a == b
_ ==ℤ _ = Bool.false

-- How many of the calls in a log a test picks.
unfoldable pub times : (Call → Bool) → Log → ℕ
times p [] = 0
times p ((c, r) ∷ log) = if p c then suc (times p log) else times p log
