-- ===== src/Call/Session/Peers.antt =====
-- The handshake of src/call.c between two peers: what Call_accept or Call_reject of one sends decides the
-- Call_begin of the other.
use bbg_vo_ip.Prelude.{
  ℕ, ◌≡◌, ◌≢◌, ◌⊎◌, inl, inr, Bool, true, false, List, [], ◌∷◌, arith, length, ne_of_same_text, ◌∙◌,
  sym, overwrite-whole, refl, same_text,
}
use bbg_vo_ip.Prelude.Int.{pos}
use bbg_vo_ip.Sys.{Env, Log, ok, recv, send}
use bbg_vo_ip.World.{World, Act}
use bbg_vo_ip.Connection.{Connection}
use bbg_vo_ip.Call.Session.{call_fail, call_accept, call_reject, int_bytes, begin, accept, reject}
use bbg_vo_ip.Call.Session.Handshake.{begin_lem, handshake, answered, Begins}

-- What a peer answers to an incoming call.
abbrev pub answer_call : Env → Bool → Connection → Act Unit
answer_call env true conn = accept env conn
answer_call env false conn = reject env conn

-- The bytes of the last call of a log, if it is a `send`.
abbrev pub last_sent : Log → List ℕ
last_sent ((send socket bytes, n) ∷ log) = bytes
last_sent _ = []

-- The other side's `recv` gives these bytes, all of them.
abbrev pub Delivers : Env → Connection → World → List ℕ → Type 0
Delivers env conn w bytes =
    (env.result w.log (recv conn.socket 4) ≡ pos (length bytes))
    × (env.bytes w.log (recv conn.socket 4) ≡ bytes)

accept-ne-reject : int_bytes call_accept ≢ int_bytes call_reject
unfolding same_text
accept-ne-reject = ne_of_same_text (int_bytes call_accept) (int_bytes call_reject) refl

-- What came whole is what `handshake` holds, for each of the four-byte values.
handshake-delivered :
    (env : Env) (unset : List ℕ) (conn : Connection) (w : World) (a b c d : ℕ)
    → length unset ≡ 4
    → Delivers env conn w (a ∷ b ∷ c ∷ d ∷ [])
    → handshake env unset conn w ≡ a ∷ b ∷ c ∷ d ∷ []
handshake-delivered env unset conn w a b c d l (n, h) =
    rw (n, h) (overwrite-whole (a ∷ b ∷ c ∷ d ∷ []) unset (omega arith))

module _ (callee caller : Env) where
  -- If the answer of the called peer arrives whole, then whatever the caller's variable held, its `Call_begin`
  -- gives CALL_FAIL when the call was refused, with nothing done but the `recv`. When it was taken, the
  -- caller's program ends with status 1 if "initSig.wav" cannot be opened; if it can be, the answer is
  -- CALL_START, after 186 messages of one frame buffer each, and the last call made creates the
  -- thread which polls the connection's socket, the only one created.
  pub answer_call-begin :
      (yes : Bool) (unset : List ℕ) (incoming outgoing : Connection) (v w : World)
      → length unset ≡ 4
      → Delivers caller outgoing w (last_sent (answer_call callee yes incoming v).1.log)
      → ((yes ≡ false)
          × (begin caller unset outgoing w ≡ (ok call_fail, answered caller outgoing w)))
        ⊎ ((yes ≡ true) × Begins caller outgoing w (begin caller unset outgoing w))
  unfolding accept reject
  answer_call-begin true unset incoming outgoing v w l (n, b) =
      elim (begin_lem caller unset outgoing w) [
        | inl (same, _) ↦ absurd (
            accept-ne-reject
              (sym (handshake-delivered caller unset outgoing w 2 0 0 0 l (n, b)) ∙ same))
        | inr (_, started) ↦ inr (refl, started)
      ]
  answer_call-begin false unset incoming outgoing v w l (n, b) =
      elim (begin_lem caller unset outgoing w) [
        | inl (_, refused) ↦ inl (refl, refused)
        | inr (other, _) ↦
            absurd (other (handshake-delivered caller unset outgoing w 3 0 0 0 l (n, b)))
      ]
