-- ===== src/Call/Tests.antt =====
-- The theorems about src/call.c and src/trek.c at concrete peers.
use bbg_vo_ip.Prelude.{
  ℕ, ◌≡◌, ◌≢◌, refl, inl, inr, ◌⊎◌, List, [], ◌∷◌, arith, length-replicate, true, false, ◌≤◌, ◌<◌,
}
use bbg_vo_ip.Prelude.Int.{pos, negsuc, ◌+ℤ◌}
use bbg_vo_ip.Sys.{Env, ok, fault, recv, send}
use bbg_vo_ip.Testing.{answering, eager, quiet}
use bbg_vo_ip.Connection.{Connection}
use bbg_vo_ip.Call.Datagram.{audio_continue, audio_stop, send_datagram, send_rest, receive_datagram}
use bbg_vo_ip.Call.Sending.{SendReplies, sent_all, send_datagram_partial, send_datagram-ne-stop}
use bbg_vo_ip.Audio.Frames.{Items}
use bbg_vo_ip.Audio.Frames.Listed.{listed}
use bbg_vo_ip.Audio.Threads.{Threads, fill_done, flush_test, flush_done, stream_idle, move_flush}
use bbg_vo_ip.Call.Recording.{CallReach, here, next, stops, flushes, CallReach-stop_recording}
use bbg_vo_ip.Call.Receiving.{RecvReplies, heard, receive_datagram-whole, receive_datagram-continue}
use bbg_vo_ip.Call.Session.{reject, begin, call_fail, call_reject, int_bytes}
use bbg_vo_ip.Call.Session.Peers.{answer_call-begin}
use bbg_vo_ip.Call.Session.Handshake.{answered, handshake, Begins, begin_lem}

-- A frame buffer of four bytes.
abbrev frame : List ℕ
frame = 1 ∷ 2 ∷ 3 ∷ 4 ∷ []

abbrev conn : Connection
conn = record { socket = pos 3; source_host = 9 }

-- A system in which every call fails.
abbrev broken : Env
broken = answering (negsuc 0) [] []

-- A peer that sends the bytes of CALL_REJECT.
abbrev refusing : Env
refusing = answering (pos 4) (int_bytes call_reject) []

-- Four bytes of a frame, and what stands behind them in memory.
abbrev followed : List ℕ
followed = 1 ∷ 2 ∷ 3 ∷ 4 ∷ 50 ∷ 60 ∷ 70 ∷ []

abbrev some_taken : Env
some_taken = answering (pos 3) [] []

send_datagram_partial_example :
    let w1 = sent_all some_taken (pos 3) (1 ∷ 2 ∷ 3 ∷ 4 ∷ []) quiet in
    ((7 < 7) × (send_datagram some_taken (pos 3) 1 followed 4 quiet ≡ (fault, w1)))
    ⊎ ((7 ≤ 7)
        × (send_datagram some_taken (pos 3) 1 followed 4 quiet
            ≡ send_rest some_taken
                (pos 3)
                0
                followed
                4
                (pos 3)
                (pos 6)
                (record w1 { log = (send (pos 3) (70 ∷ []), pos 3) ∷ w1.log })))
unfolding ◌+ℤ◌
send_datagram_partial_example =
    send_datagram_partial some_taken (pos 3) 0 3 4 followed quiet (omega arith) (omega arith) refl
      (omega arith) (omega arith)

broken-SendReplies : SendReplies broken (pos 3)
broken-SendReplies log bytes = inl refl

send_datagram-ne-stop_example : (send_datagram broken (pos 3) 2 frame 4 quiet).0 ≢ ok audio_stop
send_datagram-ne-stop_example =
    send_datagram-ne-stop broken (pos 3) broken-SendReplies 2 frame quiet (omega arith)

eager-RecvReplies : RecvReplies eager (pos 3)
eager-RecvReplies log n = inr (n, refl, omega arith, length-replicate n 7)

frame-heard :
    receive_datagram eager (pos 3) 1 frame 4 quiet
    ≡ (ok (audio_continue, 7 ∷ 7 ∷ 7 ∷ 7 ∷ []), heard eager (pos 3) 4 quiet)
frame-heard = receive_datagram-whole eager (pos 3) 0 frame quiet (omega arith) refl refl

receive_datagram-continue_example :
    ((eager.result [] (recv (pos 3) 4) ≡ pos 4)
      × (7 ∷ 7 ∷ 7 ∷ 7 ∷ [] ≡ eager.bytes [] (recv (pos 3) 4)))
    ⊎ ((eager.result [] (recv (pos 3) 4) ≡ negsuc 0) × (7 ∷ 7 ∷ 7 ∷ 7 ∷ [] ≡ frame))
receive_datagram-continue_example =
    receive_datagram-continue eager (pos 3) eager-RecvReplies 1 frame (7 ∷ 7 ∷ 7 ∷ 7 ∷ []) quiet
      (heard eager (pos 3) 4 quiet) (omega arith) frame-heard

begin_lem_example :
    ((handshake refusing frame conn quiet ≡ int_bytes call_reject)
      × (begin refusing frame conn quiet ≡ (ok call_fail, answered refusing conn quiet)))
    ⊎ ((handshake refusing frame conn quiet ≢ int_bytes call_reject)
        × Begins refusing conn quiet (begin refusing frame conn quiet))
begin_lem_example = begin_lem refusing frame conn quiet

-- The called peer refuses.
answer_call-begin_example :
    ((false ≡ false)
      × (begin refusing (9 ∷ 9 ∷ 9 ∷ 9 ∷ []) conn quiet
          ≡ (ok call_fail, answered refusing conn quiet)))
    ⊎ ((false ≡ true) × Begins refusing conn quiet (begin refusing (9 ∷ 9 ∷ 9 ∷ 9 ∷ []) conn quiet))
unfolding reject
answer_call-begin_example =
    answer_call-begin broken refusing false (9 ∷ 9 ∷ 9 ∷ 9 ∷ []) conn conn quiet quiet refl
      (refl, refl)

-- A call in which nothing was recorded, and the same told to stop.
abbrev quiet_call : Threads Items
quiet_call = record {
  store = record { free = []; playback = []; recorded = [] };
  memory = λ a. [];
  stop_playback = false;
  stop_recording = false;
  fill = fill_done;
  flush = flush_test;
  stream = stream_idle;
  leaked = [];
  queued = [];
  played = [];
  recorded = [];
  sent = [];
}

abbrev stopping_call : Threads Items
stopping_call = record quiet_call { stop_playback = true; stop_recording = true }

abbrev left_call : Threads Items
left_call = record stopping_call { flush = flush_done }

-- The recording thread ends once it is told to.
quiet_call-left : CallReach listed 2 broken (pos 3) quiet_call left_call
unfolding move_flush send_datagram send_rest
quiet_call-left =
    next (next here stops) (flushes 2 frame quiet audio_continue (omega arith) refl refl)

CallReach-stop_recording_example : left_call.stop_recording ≡ true
CallReach-stop_recording_example =
    CallReach-stop_recording listed 2 broken (pos 3) broken-SendReplies quiet_call-left refl refl
