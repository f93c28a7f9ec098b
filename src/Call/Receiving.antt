-- ===== src/Call/Receiving.antt =====
-- What receiveDatagram of src/call.c does on each answer of `recv`.
use bbg_vo_ip.Prelude.{
  ℕ, zero, suc, ◌+◌, ◌-◌, ◌*◌, ◌^◌, ◌≤◌, ◌<◌, ◌≡◌, ◌≢◌, refl, ap, sym, ◌∙◌, ◌⊎◌, inl, inr, true,
  false, Option, none, some, List, ◌∷◌, arith, length, take, length-splice, splice, ltb,
  if◌then◌else◌, Bool-cases, take-length, overwrite-whole, ◌||◌,
}
use bbg_vo_ip.Prelude.Int.{ℤ, pos, negsuc, pos-add_pos, pos-add_minus_one}
use bbg_vo_ip.Sys.{Env, Log, recv, unsigned, ok, fault, is_negative, is_zero, Result}
use bbg_vo_ip.World.{World, continue}
use bbg_vo_ip.Call.Datagram.{
  audio_continue, audio_stop, recv_rest, receive_datagram, recv_at, received, bytes_left,
  unless_fault,
}
use native.Mathlib.Decide.{dec_le, dec_lt}

-- What POSIX says of `recv`: -1, or how many bytes were stored, at most as many as were asked for.
abbrev pub RecvReplies : Env → ℤ → Type 0
RecvReplies env socket =
    (log : Log) (n : ℕ)
    → (env.result log (recv socket n) ≡ negsuc 0)
      ⊎ ((k : ℕ) × (env.result log (recv socket n) ≡ pos k)
          × (k ≤ n)
          × (length (env.bytes log (recv socket n)) ≡ k))

module _ (env : Env) (socket : ℤ) where
  -- The world after a first `recv` of `n` bytes.
  abbrev pub heard : ℕ → World → World
  heard n w = record w { log = (recv socket n, env.result w.log (recv socket n)) ∷ w.log }

  received-fit :
      (buffer bytes : List ℕ) (offset k : ℕ)
      → length bytes ≡ k
      → offset + k ≤ length buffer
      → received env socket buffer offset (pos k) bytes ≡ some (splice offset bytes buffer)
  received-fit buffer bytes offset k l fits =
      let all : take k bytes ≡ bytes = ap (λ n. take n bytes) (sym l) ∙ take-length bytes in
      rw all (ground arith)

  received-past :
      (buffer bytes : List ℕ) (offset k : ℕ)
      → length bytes ≡ k
      → length buffer < offset + k
      → received env socket buffer offset (pos k) bytes ≡ none
  received-past buffer bytes offset k l past =
      let all : take k bytes ≡ bytes = ap (λ n. take n bytes) (sym l) ∙ take-length bytes in
      rw all (ground arith)

  -- How `recv` at an offset of the buffer ends.
  data Received (buffer : List ℕ) (offset n : ℕ) (w : World) : Type 0 where
    failed :
        env.result w.log (recv socket n) ≡ negsuc 0
        → recv_at env socket buffer (some offset) n w ≡ (ok (negsuc 0, buffer), heard n w)
        → Received buffer offset n w
    stored :
        (k : ℕ)
        → env.result w.log (recv socket n) ≡ pos k
        → k ≤ n
        → length (env.bytes w.log (recv socket n)) ≡ k
        → offset + k ≤ length buffer
        → recv_at env socket buffer (some offset) n w
          ≡ (ok (pos k, splice offset (env.bytes w.log (recv socket n)) buffer), heard n w)
        → Received buffer offset n w
    overran :
        (k : ℕ)
        → env.result w.log (recv socket n) ≡ pos k
        → length buffer < offset + k
        → recv_at env socket buffer (some offset) n w ≡ (fault, heard n w)
        → Received buffer offset n w

  recv_at-Received :
      RecvReplies env socket
      → (buffer : List ℕ) (offset n : ℕ) (w : World) → Received buffer offset n w
  recv_at-Received replies buffer offset n w = elim (replies w.log n) [
    | inl e ↦ failed e (from_answer (negsuc 0) buffer e refl)
    | inr (k, e, le, l) ↦ elim (dec_le (offset + k) (length buffer)) [
      | yes fits ↦ stored k e le l fits (
          from_answer (pos k) (splice offset bytes buffer) e
            (received-fit buffer bytes offset k l fits))
      | no past ↦ overran k e (omega arith) (
          ap (λ got. outcome got (received env socket buffer offset got bytes)) e
          ∙ ap (outcome (pos k)) (received-past buffer bytes offset k l (omega arith)))
    ]
  ]
    where
      bytes : List ℕ
      bytes = env.bytes w.log (recv socket n)

      outcome : ℤ → Option (List ℕ) → Result (ℤ × List ℕ) × World
      outcome got b = unless_fault env socket got b (heard n w)

      from_answer :
          (got : ℤ) (b : List ℕ)
          → env.result w.log (recv socket n) ≡ got
          → received env socket buffer offset got bytes ≡ some b
          → recv_at env socket buffer (some offset) n w ≡ (ok (got, b), heard n w)
      from_answer got b e h =
          ap (λ r. outcome r (received env socket buffer offset r bytes)) e ∙ ap (outcome got) h

  -- A `recv` that fills the buffer ends `receiveDatagram` with AUDIO_CONTINUE and those bytes in it.
  pub receive_datagram-whole :
      (rounds : ℕ) (buffer : List ℕ) (w : World)
      → length buffer < 2 ^ 31
      → env.result w.log (recv socket (length buffer)) ≡ pos (length buffer)
      → length (env.bytes w.log (recv socket (length buffer))) ≡ length buffer
      → receive_datagram env socket (suc rounds) buffer (length buffer) w ≡ (
        ok (audio_continue, env.bytes w.log (recv socket (length buffer))),
        heard (length buffer) w,
      )
  unfolding receive_datagram recv_rest
  receive_datagram-whole rounds buffer w small h l =
      let bytes = env.bytes w.log (recv socket (length buffer)) in
      ground (arith, received-fit buffer bytes 0 (length buffer) l, overwrite-whole bytes buffer l)

  -- Where the first `recv` stores nothing the buffer stays as it was: the end of the stream ends
  -- `receiveDatagram` with AUDIO_STOP, and a failure ends it with AUDIO_CONTINUE, since the total of -1
  -- is compared as a `size_t`.
  pub receive_datagram-none :
      (rounds : ℕ) (buffer : List ℕ) (w : World)
      → 0 < length buffer
      → length buffer < 2 ^ 31
      → (env.result w.log (recv socket (length buffer)) ≡ pos 0)
        ⊎ (env.result w.log (recv socket (length buffer)) ≡ negsuc 0)
      → receive_datagram env socket (suc rounds) buffer (length buffer) w ≡ (
        ok (
          if is_zero (env.result w.log (recv socket (length buffer)))
              then audio_stop
              else audio_continue,
          buffer,
        ),
        heard (length buffer) w,
      )
  unfolding receive_datagram recv_rest
  receive_datagram-none rounds buffer w some_room small h = ground (arith)

  -- Once some of the buffer but not all has come, no answer of `recv` lets the loop end well.
  recv_rest-ne-continue :
      RecvReplies env socket
      → (rounds : ℕ) (buffer : List ℕ) (size t : ℕ) (got : ℤ) (w : World) (b : List ℕ)
      → length buffer ≡ size
      → size < 2 ^ 31
      → t < size
      → (0 < t) ⊎ ((is_negative got || is_zero got) ≡ true)
      → (recv_rest env socket rounds buffer size got (pos t) w).0 ≢ ok (audio_continue, b)
  unfolding recv_rest
  recv_rest-ne-continue replies zero buffer size t got w b l small room h = λ e. cc
  recv_rest-ne-continue replies (suc rounds) buffer size t got w b l small room h =
      elim (Bool-cases (is_negative got || is_zero got)) [
        | inl over ↦ ground (arith)
        | inr more ↦
            let begun : 0 < t = ground (arith) in
            let rest : bytes_left size (pos t) ≡ size - t = omega arith in
            elim (recv_at-Received replies buffer (2 * t) (bytes_left size (pos t)) w) [
              | failed e out ↦ ground (
                arith,
                pos-add_minus_one t begun,
                recv_rest-ne-continue replies rounds buffer size (t - 1) (negsuc 0)
                    (heard (bytes_left size (pos t)) w) b l small (omega arith) (inr refl),
              )
              | stored k e le _ fits out ↦
                  let bytes = env.bytes w.log (recv socket (bytes_left size (pos t))) in
                  ground (
                    arith,
                    pos-add_pos t k,
                    recv_rest-ne-continue replies rounds (splice (2 * t) bytes buffer) size (t + k)
                        (pos k) (heard (bytes_left size (pos t)) w) b
                        (length-splice (2 * t) bytes buffer ∙ l) small (omega arith)
                        (inl (omega arith)),
                  )
              | overran k e past out ↦ ground (arith)
            ]
      ]

  begun_or_none : (k : ℕ) → (0 < k) ⊎ ((is_negative (pos k) || is_zero (pos k)) ≡ true)
  begun_or_none zero = inr refl
  begun_or_none (suc k) = inl (omega arith)

  after_first :
      (rounds : ℕ) (buffer buffer' : List ℕ) (got : ℤ) (w w' : World)
      → recv_at env socket buffer (some 0) (length buffer) w ≡ (ok (got, buffer'), w')
      → receive_datagram env socket rounds buffer (length buffer) w
        ≡ recv_rest env socket rounds buffer' (length buffer) got got w'
  unfolding receive_datagram
  after_first rounds buffer buffer' got w w' out =
      ap (λ p. continue p.0 (λ (g, b). recv_rest env socket rounds b (length buffer) g g) p.1) out

  -- A loop that is over hands the buffer back.
  recv_rest-over :
      (rounds : ℕ) (buffer b : List ℕ) (size : ℕ) (got total : ℤ) (w w' : World)
      → ltb (unsigned total) size ≡ false
      → recv_rest env socket rounds buffer size got total w ≡ (ok (audio_continue, b), w')
      → b ≡ buffer
  unfolding recv_rest
  recv_rest-over zero buffer b size got total w w' over h = cc
  recv_rest-over (suc rounds) buffer b size got total w w' over h = ground (arith)

  -- If `receiveDatagram` returns AUDIO_CONTINUE, then its first `recv` either filled the whole buffer,
  -- which then holds those bytes, or failed, and the buffer is as it was. A frame that comes in pieces is
  -- never put together.
  pub receive_datagram-continue :
      RecvReplies env socket
      → (rounds : ℕ) (buffer b : List ℕ) (w w' : World) → length buffer < 2 ^ 31
      → receive_datagram env socket rounds buffer (length buffer) w ≡ (ok (audio_continue, b), w')
      → let first = env.result w.log (recv socket (length buffer)) in
        ((first ≡ pos (length buffer)) × (b ≡ env.bytes w.log (recv socket (length buffer))))
        ⊎ ((first ≡ negsuc 0) × (b ≡ buffer))
  unfolding receive_datagram
  receive_datagram-continue replies rounds buffer b w w' small h =
      elim (recv_at-Received replies buffer 0 (length buffer) w) [
        | failed e out ↦ inr (
          e,
          recv_rest-over rounds buffer b (length buffer) (negsuc 0) (negsuc 0)
              (heard (length buffer) w) w' (ground arith)
              (sym (after_first rounds buffer buffer (negsuc 0) w _ out) ∙ h),
        )
        | stored k e le l fits out ↦
            let rest = sym (after_first rounds buffer _ (pos k) w _ out) ∙ h in
            elim (dec_lt k (length buffer)) [
              | yes part ↦ absurd (
                  recv_rest-ne-continue replies rounds _ (length buffer) k (pos k)
                    (heard (length buffer) w) b (length-splice 0 bytes buffer) small part
                    (begun_or_none k) (ap (λ p. p.0) rest))
              | no whole ↦
                  let all : k ≡ length buffer = omega arith in
                  inl (
                    e ∙ ap pos all,
                    recv_rest-over rounds _ b (length buffer) (pos k) (pos k)
                          (heard (length buffer) w) w' (ground arith) rest
                        ∙ overwrite-whole bytes buffer (l ∙ all),
                  )
            ]
        | overran k e past out ↦ ground (arith)
      ]
    where
      bytes : List ℕ
      bytes = env.bytes w.log (recv socket (length buffer))
