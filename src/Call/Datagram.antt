-- ===== src/Call/Datagram.antt =====
-- sendDatagram and receiveDatagram of src/call.c. A frame buffer is its bytes; the pointer arithmetic on
-- `FrameBuffer`, a `short*`, goes in steps of two bytes. Reading or writing past the buffer is a fault.
use bbg_vo_ip.Prelude.{
  ℕ, zero, suc, ◌+◌, ◌-◌, ◌*◌, ◌%◌, ◌||◌, cond, Option, none, some, List, take, load, store, ltb,
}
use bbg_vo_ip.Prelude.Int.{ℤ, pos, negsuc, ◌+ℤ◌}
use bbg_vo_ip.Sys.{Env, send, recv, word, unsigned, is_negative, is_zero}
use bbg_vo_ip.World.{Act, ◌>>=◌, pure, access_fault, out_of_rounds, ask, ask_bytes}

-- `AudioCallbackResult`
pub data AudioCallbackResult : Type 0 where
  audio_continue audio_stop : AudioCallbackResult

-- The byte offset of `buffer + total`, if it is not before the buffer.
abbrev pub sample_offset : ℤ → Option ℕ
sample_offset (pos n) = some (2 * n)
sample_offset (negsuc n) = none

-- `bufferSize - total`, as a `size_t`
abbrev pub bytes_left : ℕ → ℤ → ℕ
bytes_left size total = (size + word - unsigned total) % word

module _ (env : Env) (socket : ℤ) where
  -- `send` of `n` bytes from an offset of the buffer
  abbrev pub send_from : List ℕ → Option ℕ → ℕ → Act ℤ
  send_from buffer none n = access_fault
  send_from buffer (some offset) n = elim (load offset n buffer) [
    | none ↦ access_fault
    | some bytes ↦ ask env (send socket bytes)
  ]

  -- The `while` of `sendDatagram`: what the last call and all calls sent.
  unfoldable pub send_rest : ℕ → List ℕ → ℕ → ℤ → ℤ → Act AudioCallbackResult
  send_rest zero buffer size sent total = out_of_rounds
  send_rest (suc rounds) buffer size sent total =
      let more = (do
        sent' ← send_from buffer (sample_offset total) (bytes_left size total)
        send_rest rounds buffer size sent' (total +ℤ sent')) in
      cond (ltb (unsigned sent) size) (cond (is_negative sent) (pure audio_stop) more)
        (pure audio_continue)

  -- `sendDatagram`
  unfoldable pub send_datagram : ℕ → List ℕ → ℕ → Act AudioCallbackResult
  send_datagram rounds buffer size = do
    sent ← send_from buffer (some 0) size
    send_rest rounds buffer size sent sent

  -- What `recv` leaves of a buffer: the bytes that it counts, from an offset on.
  abbrev pub received : List ℕ → ℕ → ℤ → List ℕ → Option (List ℕ)
  received buffer offset (pos n) bytes = store offset (take n bytes) buffer
  received buffer offset (negsuc n) bytes = some buffer

  abbrev pub unless_fault : ℤ → Option (List ℕ) → Act (ℤ × List ℕ)
  unless_fault got none = access_fault
  unless_fault got (some buffer) = pure (got, buffer)

  -- `recv` of up to `n` bytes to an offset of the buffer
  abbrev pub recv_at : List ℕ → Option ℕ → ℕ → Act (ℤ × List ℕ)
  recv_at buffer none n = access_fault
  recv_at buffer (some offset) n = do
    (got, bytes) ← ask_bytes env (recv socket n)
    unless_fault got (received buffer offset got bytes)

  -- The `while` of `receiveDatagram`
  unfoldable pub recv_rest : ℕ → List ℕ → ℕ → ℤ → ℤ → Act (AudioCallbackResult × List ℕ)
  recv_rest zero buffer size got total = out_of_rounds
  recv_rest (suc rounds) buffer size got total =
      let more = (do
        (got', buffer') ← recv_at buffer (sample_offset total) (bytes_left size total)
        recv_rest rounds buffer' size got' (total +ℤ got')) in
      cond (ltb (unsigned total) size)
        (cond (is_negative got || is_zero got) (pure (audio_stop, buffer)) more)
        (pure (audio_continue, buffer))

  -- `receiveDatagram`: the result and what the buffer then holds.
  unfoldable pub receive_datagram : ℕ → List ℕ → ℕ → Act (AudioCallbackResult × List ℕ)
  receive_datagram rounds buffer size = do
    (got, buffer') ← recv_at buffer (some 0) size
    recv_rest rounds buffer' size got got
