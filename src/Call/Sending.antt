-- ===== src/Call/Sending.antt =====
-- What sendDatagram of src/call.c does on each answer of `send`.
use bbg_vo_ip.Prelude.{
  ℕ, zero, suc, ◌^◌, ◌≤◌, ◌<◌, ◌≡◌, ◌≢◌, refl, ap, ◌⊎◌, inl, inr, Option, none, some, List, ◌∷◌,
  arith, length, load, load-whole, ◌∙◌, Option-cases, sym, take, slice, ◌-◌, ◌*◌, ◌+◌,
}
use bbg_vo_ip.Prelude.Int.{ℤ, pos, negsuc, ◌+ℤ◌}
use bbg_vo_ip.Sys.{Env, Log, send, ok, fault}
use bbg_vo_ip.World.{World, ask, access_fault, ◌>>=◌, Act}
use bbg_vo_ip.Call.Datagram.{
  audio_continue, audio_stop, send_rest, send_datagram, send_from, sample_offset, bytes_left,
}

-- What POSIX says of `send`: -1, or how many of the bytes were taken.
abbrev pub SendReplies : Env → ℤ → Type 0
SendReplies env socket =
    (log : Log) (bytes : List ℕ)
    → (env.result log (send socket bytes) ≡ negsuc 0)
      ⊎ ((n : ℕ) × (env.result log (send socket bytes) ≡ pos n) × (n ≤ length bytes))

module _ (env : Env) (socket : ℤ) where
  -- The world after a first `send` of the whole buffer.
  abbrev pub sent_all : List ℕ → World → World
  sent_all buffer w = record w {
    log = (send socket buffer, env.result w.log (send socket buffer)) ∷ w.log;
  }

  send_from_start :
      (buffer : List ℕ)
      → send_from env socket buffer (some 0) (length buffer) ≡ ask env (send socket buffer)
  send_from_start buffer = ap after_load (load-whole buffer)
    where
      after_load : Option (List ℕ) → Act ℤ
      after_load none = access_fault
      after_load (some bytes) = ask env (send socket bytes)

  send_datagram_lem :
      (rounds : ℕ) (buffer : List ℕ) (w : World)
      → let sent = env.result w.log (send socket buffer) in
        send_datagram env socket rounds buffer (length buffer) w
        ≡ send_rest env socket rounds buffer (length buffer) sent sent (sent_all buffer w)
  unfolding send_datagram
  send_datagram_lem rounds buffer w =
      ap (λ m. (m >>= λ sent. send_rest env socket rounds buffer (length buffer) sent sent) w)
        (send_from_start buffer)

  -- A `send` that takes the whole buffer ends `sendDatagram` with AUDIO_CONTINUE. So does a `send` that
  -- fails: the -1 is compared as a `size_t`, and the test for it inside the loop is not reached.
  pub send_datagram_whole_or_failed :
      (rounds : ℕ) (buffer : List ℕ) (w : World)
      → length buffer < 2 ^ 31
      → (env.result w.log (send socket buffer) ≡ pos (length buffer))
        ⊎ (env.result w.log (send socket buffer) ≡ negsuc 0)
      → send_datagram env socket (suc rounds) buffer (length buffer) w
        ≡ (ok audio_continue, sent_all buffer w)
  unfolding send_rest
  send_datagram_whole_or_failed rounds buffer w small h =
      send_datagram_lem (suc rounds) buffer w ∙ ground arith

  -- Where the buffer stands at the front of a longer stretch of memory, and the first `send` takes `k` of its
  -- `size` bytes, some and not all, `sendDatagram` goes on at twice the offset: if the memory does not
  -- reach to `2 * k + (size - k)`, the next read is a fault and nothing more is sent, and otherwise the
  -- second `send` is given the `size - k` bytes from `2 * k` on, which end `k` bytes behind the
  -- buffer, and the loop goes on from its answer.
  pub send_datagram_partial :
      (rounds k size : ℕ) (memory : List ℕ) (w : World)
      → size ≤ length memory
      → size < 2 ^ 31
      → env.result w.log (send socket (take size memory)) ≡ pos k
      → 0 < k
      → k < size
      → let w1 = sent_all (take size memory) w in
        let second = send socket (slice (2 * k) (size - k) memory) in
        ((length memory < size + k)
          × (send_datagram env socket (suc rounds) memory size w ≡ (fault, w1)))
        ⊎ ((size + k ≤ length memory)
            × (send_datagram env socket (suc rounds) memory size w
                ≡ send_rest env socket rounds memory size
                    (env.result w1.log second)
                    (pos k +ℤ env.result w1.log second)
                    (record w1 { log = (second, env.result w1.log second) ∷ w1.log })))
  unfolding send_rest send_datagram
  send_datagram_partial rounds k size memory w within small h some_sent not_all = ground arith

  abbrev Answer : ℤ → Type 0
  Answer sent = (sent ≡ negsuc 0) ⊎ ((n : ℕ) × (sent ≡ pos n))

  -- `send` of some bytes of the buffer is a fault, or the next answer of `send`.
  send_from_cases :
      SendReplies env socket
      → (buffer : List ℕ) (offset : Option ℕ) (n : ℕ) (w : World)
      → (send_from env socket buffer offset n w ≡ (fault, w))
        ⊎ ((sent : ℤ) × (w' : World) × (send_from env socket buffer offset n w ≡ (ok sent, w'))
            × Answer sent)
  send_from_cases replies buffer none n w = inl refl
  send_from_cases replies buffer (some offset) n w = elim (Option-cases (load offset n buffer)) [
    | inl out ↦ inl (rw (out, send_from))
    | inr (bytes, e) ↦ inr (
      env.result w.log (send socket bytes),
      record w { log = (send socket bytes, env.result w.log (send socket bytes)) ∷ w.log },
      rw (e, send_from),
      answer bytes (replies w.log bytes),
    )
  ]
    where
      answer :
          {sent : ℤ} (bytes : List ℕ)
          → (sent ≡ negsuc 0) ⊎ ((n : ℕ) × (sent ≡ pos n) × (n ≤ length bytes))
          → Answer sent
      answer bytes (inl e) = inl e
      answer bytes (inr (n, e, _)) = inr (n, e)

  send_rest-ne-stop :
      SendReplies env socket
      → (rounds : ℕ) (buffer : List ℕ) (size : ℕ) (sent total : ℤ) (w : World) → size < 2 ^ 31
      → Answer sent
      → (send_rest env socket rounds buffer size sent total w).0 ≢ ok audio_stop
  unfolding send_rest
  send_rest-ne-stop replies zero buffer size sent total w small h = λ e. cc
  send_rest-ne-stop replies (suc rounds) buffer size sent total w small h =
      elim (send_from_cases replies buffer (sample_offset total) (bytes_left size total) w) [
        | inl out ↦ ground (arith)
        | inr (sent', w', next, a) ↦
            ground (
              arith,
              send_rest-ne-stop replies rounds buffer size sent' (total +ℤ sent') w' small a,
            )
      ]

  -- However `send` answers, `sendDatagram` on a buffer of less than 2 ^ 31 bytes never returns AUDIO_STOP,
  -- so the thread that sends is not told to stop when the connection is gone.
  pub send_datagram-ne-stop :
      SendReplies env socket
      → (rounds : ℕ) (buffer : List ℕ) (w : World) → length buffer < 2 ^ 31
      → (send_datagram env socket rounds buffer (length buffer) w).0 ≢ ok audio_stop
  send_datagram-ne-stop replies rounds buffer w small stopped =
      send_rest-ne-stop replies rounds buffer (length buffer) first first (sent_all buffer w) small
        (first_answer (replies w.log buffer))
        (ap (λ p. p.0) (sym (send_datagram_lem rounds buffer w)) ∙ stopped)
    where
      first : ℤ
      first = env.result w.log (send socket buffer)

      first_answer :
          (first ≡ negsuc 0) ⊎ ((n : ℕ) × (first ≡ pos n) × (n ≤ length buffer)) → Answer first
      first_answer (inl e) = inl e
      first_answer (inr (n, e, _)) = inr (n, e)
