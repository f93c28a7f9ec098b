-- ===== src/Bench/Main.antt =====
-- main of src/main_nonblocking_audio.c from the filled containers on.
use bbg_vo_ip.Prelude.{ℕ, zero, suc, ◌+◌, ◌≡◌, ◌==◌, refl, Bool, true, false, not, cond, arith}
use bbg_vo_ip.Prelude.Int.{ℤ, pos, negsuc}
use bbg_vo_ip.Sys.{
  Env, Call, ok, create, loop_recv, loop_send, wait, pa_initialize, pa_terminate, pa_open, pa_start,
  pa_close, pa_realtime, pa_active, pa_device, is_zero, times,
}
use bbg_vo_ip.World.{World, Act, ◌>>=◌, ◌>>◌, pure, access_fault, out_of_rounds, ask, call}

abbrev pub is_one : ℤ → Bool
is_one (pos n) = n == 1
is_one (negsuc n) = false

module _ (env : Env) where
  -- `done:`
  abbrev pub finish : ℤ → Act ℤ
  finish result = do call env pa_terminate; pure result

  -- The `while` over `Pa_IsStreamActive`, which may also answer with an error
  unfoldable pub watch : ℕ → Act ℤ
  watch zero = out_of_rounds
  watch (suc rounds) = do
    active ← ask env pa_active
    let again = watch rounds
    cond (is_one active) (do call env (wait 100000000); again) (pure active)

  -- `main`; `deviceInfo` is read without a look at whether it is NULL.
  unfoldable pub main : ℕ → Act ℤ
  unfolding watch
  main rounds = do
    result ← ask env pa_initialize
    cond (not (is_zero result)) (finish result) (do
      info ← ask env (pa_device (pos 1))
      opened ← cond (is_zero info) access_fault (ask env pa_open)
      cond (not (is_zero opened)) (finish opened) (do
        call env pa_realtime
        call env (create loop_recv)
        call env (wait 2000000000)
        started ← ask env pa_start
        call env (create loop_send)
        cond (not (is_zero started)) (finish started) (do
          active ← watch rounds
          cond (not (is_zero active)) (finish active)
              (do closed ← ask env pa_close; finish closed))))

  abbrev pub is_terminate : Call → Bool
  is_terminate pa_terminate = true
  is_terminate _ = false

  abbrev pub is_close : Call → Bool
  is_close pa_close = true
  is_close _ = false

  -- Waiting calls neither.
  watch_log :
      (rounds : ℕ) (w : World)
      → (times is_terminate (watch rounds w).1.log ≡ times is_terminate w.log)
        × (times is_close (watch rounds w).1.log ≡ times is_close w.log)
  unfolding watch times
  watch_log zero w = (refl, refl)
  watch_log (suc rounds) w =
      ground
        (arith, watch_log rounds ((ask env pa_active >>= λ active. call env (wait 100000000)) w).1)

  -- However `main` returns, it has called Pa_Terminate once; and it returns 0 only if it has closed the stream,
  -- once, too.
  pub main_lem :
      (rounds : ℕ) (w w' : World) (r : ℤ)
      → main rounds w ≡ (ok r, w')
      → (times is_terminate w'.log ≡ times is_terminate w.log + 1)
        × (is_zero r ≡ true → times is_close w'.log ≡ times is_close w.log + 1)
  unfolding main times
  main_lem rounds w w' r e = ground (
    arith,
    watch_log rounds
        ((ask env pa_initialize >>= λ a. ask env (pa_device (pos 1)) >>= λ b.
            ask env pa_open >>= λ c.
            call env pa_realtime
            >> call env (create loop_recv)
            >> call env (wait 2000000000)
            >> (ask env pa_start >>= λ d. call env (create loop_send)))
          w).1,
  )
