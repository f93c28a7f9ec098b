-- ===== src/Udp/Message.antt =====
-- What src/socket.c receives, and what the server of src/main.c sends back.
use bbg_vo_ip.Prelude.{
  ℕ, zero, suc, ◌-◌, ◌^◌, ◌<◌, ◌≤◌, ◌≡◌, refl, ap, ◌∙◌, ◌⊎◌, inl, inr, true, List, [], ◌∷◌, some,
  arith, before, length, take, overwrite, splice, length-overwrite, length-splice,
}
use bbg_vo_ip.Prelude.Int.{ℤ, pos, negsuc}
use bbg_vo_ip.Sys.{Env, Log, ok, recv_from}
use bbg_vo_ip.World.{World}
use bbg_vo_ip.Udp.{Datagram, string_termination, received, terminated, receive_through_udp_server}

-- What POSIX says of `recvfrom`: -1, or how many bytes were stored, at most as many as were asked for.
abbrev pub Replies : Env → Type 0
Replies env =
    (log : Log) (sock : ℤ) (n : ℕ)
    → (env.result log (recv_from sock n) ≡ negsuc 0)
      ⊎ ((k : ℕ) × (env.result log (recv_from sock n) ≡ pos k)
          × (k ≤ n)
          × (length (env.bytes log (recv_from sock n)) ≡ k))

-- A NUL written cuts the string there.
before-splice :
    (i : ℕ) (mem : List ℕ)
    → i < length mem
    → before 0 (splice i (0 ∷ []) mem) ≡ before 0 (take i mem)
unfolding before
before-splice zero [] h = absurd (omega arith)
before-splice zero (c ∷ mem) h = ground arith
before-splice (suc i) [] h = absurd (omega arith)
before-splice (suc i) (c ∷ mem) h = ground (arith, before-splice i mem (omega arith))

take-overwrite :
    (i : ℕ) (src mem : List ℕ)
    → i ≤ length src
    → length src ≤ length mem
    → take i (overwrite src mem) ≡ take i src
take-overwrite zero src mem h l = refl
take-overwrite (suc i) [] mem h l = absurd (omega arith)
take-overwrite (suc i) (s ∷ src) [] h l = absurd (omega arith)
take-overwrite (suc i) (s ∷ src) (m ∷ mem) h l =
    ap (λ r. s ∷ r) (take-overwrite i src mem (omega arith) (omega arith))

take-short : (n : ℕ) (xs : List ℕ) → length xs ≤ n → take n xs ≡ xs
take-short zero [] h = refl
take-short zero (x ∷ xs) h = absurd (omega arith)
take-short (suc n) [] h = refl
take-short (suc n) (x ∷ xs) h = ap (λ l. x ∷ l) (take-short n xs (omega arith))

-- The C string that `receiveThroughUdpServer` leaves in its buffer comes from these bytes.
abbrev pub source : Datagram → List ℕ → List ℕ
source d buffer = elim d.got [ pos n ↦ d.bytes | negsuc n ↦ buffer ]

terminated_lem :
    (max_len : ℕ) (d : Datagram) (buffer : List ℕ)
    → 0 < max_len
    → max_len ≤ length buffer
    → max_len < 2 ^ 31
    → (d.got ≡ negsuc 0) ⊎ ((k : ℕ) × (d.got ≡ pos k) × (k ≤ max_len) × (length d.bytes ≡ k))
    → (b : List ℕ) × (terminated max_len d (received d buffer) ≡ some b)
      × (before 0 b ≡ before 0 (take (max_len - 1) (source d buffer)))
      × (length b ≡ length buffer)
terminated_lem max_len d buffer pos_len fits small (inl failed) = (
  splice (max_len - 1) (0 ∷ []) buffer,
  ground arith,
  ground (arith, before-splice (max_len - 1) buffer (omega arith)),
  length-splice (max_len - 1) (0 ∷ []) buffer,
)
terminated_lem max_len d buffer pos_len fits small (inr (k, got, most, l)) =
    let all : take k d.bytes ≡ d.bytes = take-short k d.bytes (omega arith) in
    let i = string_termination k max_len in
    let written = overwrite d.bytes buffer in
    let lw = length-overwrite d.bytes buffer in
    (
      splice i (0 ∷ []) written,
      ground (arith, all, lw),
      ground (
        arith,
        before-splice i written,
        take-overwrite i d.bytes buffer,
        all,
        take-short (max_len - 1) d.bytes,
        lw,
      ),
      length-splice i (0 ∷ []) written ∙ lw,
    )

-- The datagram that the next `recvfrom` gives.
abbrev pub incoming : Env → ℕ → World → Datagram
incoming env max_len w =
    let c = recv_from w.udp.socket_descriptor max_len in
    record { got = env.result w.log c; bytes = env.bytes w.log c; sender = env.text w.log c }

-- On an initialised server, and with a `recvfrom` that stores as many bytes as it tells and no more than
-- `maxLen`, which is between 1 and 2 ^ 31 - 1, a message is received into any buffer of at least `maxLen` bytes
-- without an access outside it, and the buffer then holds a C string: the message up to its first NUL, cut to
-- `maxLen - 1` bytes; but where `recvfrom` fails, what the buffer held before, cut there, as if it had been
-- received.
pub receive_through_udp_server_lem :
    (env : Env) (buffer : List ℕ) (max_len : ℕ) (w : World)
    → Replies env
    → w.udp.initialized ≡ true
    → 0 < max_len
    → max_len ≤ length buffer
    → max_len < 2 ^ 31
    → let d = incoming env max_len w in
      (b : List ℕ) × (receive_through_udp_server env (some buffer) max_len w ≡ (
        ok (d.sender, b),
        record w { log = (recv_from w.udp.socket_descriptor max_len, d.got) ∷ w.log },
      ))
      × (before 0 b ≡ before 0 (take (max_len - 1) (source d buffer)))
      × (length b ≡ length buffer)
unfolding receive_through_udp_server
receive_through_udp_server_lem env buffer max_len w replies on some_room fits small =
    let d = incoming env max_len w in
    let (b, held, string, l) =
      terminated_lem max_len d buffer some_room fits small
        (replies w.log w.udp.socket_descriptor max_len) in
    (b, ground arith, string, l)
