-- ===== src/Udp/Echo.antt =====
-- src/main.c: a server that sends one message back and ends.
pub mod Answer
use bbg_vo_ip.Prelude.{ℕ, ◌+◌, cond, ◌++◌, List, Text, Option, some, codes, before, length, ltb}
use bbg_vo_ip.Sys.{Env}
use bbg_vo_ip.World.{Act, ◌>>=◌, ◌>>◌, pure, access_fault}
use bbg_vo_ip.Udp.{
  initialize_udp_server, receive_through_udp_server, send_through_udp_server, close_udp_server,
}

-- PORT and BUFFER_LEN
abbrev pub port : ℕ
port = 8080

abbrev pub buffer_len : ℕ
buffer_len = 4096

abbrev pub message : Text
message = codes "Your message was: "

abbrev pub message_end : Text
message_end = codes "Terminating server.\n"

-- The text that is put together, and the size of `returnBuffer`.
abbrev pub answer : List ℕ → Text
answer buffer = message ++ (before 0 buffer ++ message_end)

abbrev pub return_length : ℕ
return_length = length message + buffer_len + length message_end

module _ (env : Env) where
  -- `main` from the message on; a text longer than `returnBuffer` would be written past it.
  unfoldable pub respond : List ℕ × List ℕ → Act ℕ
  respond (sender, buffer) =
      cond (ltb (length (answer buffer)) return_length)
        (do send_through_udp_server env sender (some (answer buffer)); close_udp_server env; pure 0)
        access_fault

  -- `main`; `unset` is what `buffer` holds when it comes to be.
  unfoldable pub main : List ℕ → Act ℕ
  unfolding respond
  main unset = do
    initialize_udp_server env port
    received ← receive_through_udp_server env (some unset) buffer_len
    respond received
