-- ===== src/Driver/Status.antt =====
-- What the status of src/driver/call.c tells.
use bbg_vo_ip.Prelude.{ℕ, ◌≡◌, refl, inl, inr, cond, List, arith, not, ap, ◌∙◌}
use bbg_vo_ip.Sys.{Env, ok, join, tcp_listen}
use bbg_vo_ip.World.{World, Act, ◌>>=◌, ◌>>◌, pure, call}
use bbg_vo_ip.Connection.{
  Connection, ConnectionResult, connection_ok, connection_busy, connection_socket_fail,
  connection_connect_fail,
}
use bbg_vo_ip.Call.Session.{call_start, call_reject, int_bytes, begin}
use bbg_vo_ip.Call.Session.Handshake.{handshake, begin_lem}
use bbg_vo_ip.Driver.{main, connect_to_self, hang_up, is_call_zero, is_connection_ok}
use bbg_vo_ip.World.Returns.{split}

when_connected :
    (result : ConnectionResult) (m : Act ℕ) (v w' : World)
    → cond (not (is_connection_ok result)) (pure 1) m v ≡ (ok 0, w')
    → (result ≡ connection_ok) × (m v ≡ (ok 0, w'))
when_connected connection_ok m v w' e = (refl, e)
when_connected connection_busy m v w' e = absurd (ground arith)
when_connected connection_socket_fail m v w' e = absurd (ground arith)
when_connected connection_connect_fail m v w' e = absurd (ground arith)

module _ (env : Env) (unset : List ℕ) where
  -- Where the call that has been begun was refused, or the driver ends with another status than 0.
  begun_refused :
      (ending : Act Connection) (conn : Connection) (v w' : World)
      → (do
        r ← begin env unset conn
        cond
            (is_call_zero r)
            (pure 1)
            (do peer ← ending; call env (join tcp_listen); hang_up env conn peer))
          v
        ≡ (ok 0, w')
      → handshake env unset conn v ≡ int_bytes call_reject
  begun_refused ending conn v w' e =
      let (r, u, begun, rest) = split (begin env unset conn) v w' 0 e in
      elim (begin_lem env unset conn v) [
        | inl (same, _) ↦ same
        | inr (_, inl (_, left, _)) ↦ absurd cc
        | inr (_, inr (_, started, _, _)) ↦
            let zero_status : r ≡ call_start = ground arith in absurd (ground arith)
      ]

  -- The driver ends with status 0 only if the connection to itself was made and, on that connection and from the
  -- world in which it was made, the handshake of `Call_begin` was CALL_REJECT.
  pub main-zero :
      (meanwhile : Act Unit) (ending : Act Connection) (w w' : World)
      → main env unset meanwhile ending w ≡ (ok 0, w')
      → (callout : Connection) × (v : World) × (connect_to_self env meanwhile w
          ≡ (ok (connection_ok, callout), v))
        × (handshake env unset callout v ≡ int_bytes call_reject)
  unfolding main
  main-zero meanwhile ending w w' e =
      let ((result, callout), v, made, rest) = split (connect_to_self env meanwhile) w w' 0 e in
      let (connected, begins) = when_connected result _ v w' rest in
      (
        callout,
        v,
        made ∙ ap (λ r. (ok (r, callout), v)) connected,
        begun_refused ending callout v w' begins,
      )
