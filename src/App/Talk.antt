-- ===== src/App/Talk.antt =====
-- The `while` of src/main_pretty.c that waits for Ctrl-D or a hang-up, and what follows on a call.
use bbg_vo_ip.Prelude.{
  ℕ, zero, suc, ◌<◌, ◌≡◌, refl, ◌⊎◌, inl, inr, Bool, true, false, not, cond, ◌||◌, arith, length,
  List, [], ◌∷◌, Text, codes,
}
use bbg_vo_ip.Prelude.Int.{ℤ}
use bbg_vo_ip.Sys.{
  Env, Log, Thread, poll_input, open_file, print_file, create, is_zero, is_negative, close_file,
}
use bbg_vo_ip.World.{World, Act, ask, ◌>>=◌, done, call, gets}
use bbg_vo_ip.World.Returns.{
  Returns, ReturnsAt, Returns-cond, returns_rules, Returns->>=, Returns-pure, Returns-gets,
}
use bbg_vo_ip.Connection.{Connection}
use bbg_vo_ip.Audio.Control
use bbg_vo_ip.Call.Session
use bbg_vo_ip.Dial
use bbg_vo_ip.Dial.{start_thread}
use bbg_vo_ip.Led.{value_path, Light, write_light}
use bbg_vo_ip.Terminal.{get_char, skip_line}
use bbg_vo_ip.App.{Unset, has_input, hung_up, wants_out, talk, end_out, end_in}

-- What the system's manual says of `poll` without a time limit, and that files and threads can be had.
pub record Works (env : Env) : Type 0 where
  pub polls :
      (log : Log) (socket : ℤ)
      → (has_input (env.result log (poll_input socket)) ≡ true)
        ⊎ (hung_up (env.result log (poll_input socket)) ≡ true)
  pub opens :
      (log : Log) (path mode : Text) → is_zero (env.result log (open_file path mode)) ≡ false
  pub prints :
      (log : Log) (text : Text)
      → (is_negative (env.result log (print_file text))
          || is_zero (env.result log (print_file text)))
        ≡ false
  pub creates : (log : Log) (thread : Thread) → is_zero (env.result log (create thread)) ≡ true

module _ (env : Env) (unset : Unset) (works : Works env) where
  -- A round, given what `poll` reported: it goes on only after a character from the terminal.
  round-ReturnsAt :
      (input up : Bool) (chars : List ℕ) (w : World) (again : Act Unit)
      → (input ≡ true) ⊎ (up ≡ true)
      → w.stdin ≡ chars
      → ((c : ℕ) (more : List ℕ) → chars ≡ c ∷ more → ReturnsAt again (record w { stdin = more }))
      → ReturnsAt (wants_out env unset input >>= λ out. cond out done (cond up done again)) w
  unfolding wants_out get_char
  round-ReturnsAt false false chars w again (inl event) e h = cc
  round-ReturnsAt false false chars w again (inr event) e h = cc
  round-ReturnsAt false true chars w again event e h = (tt, w, refl)
  round-ReturnsAt true up [] w again event e h = (tt, record w { stdin = [] }, rw e refl)
  round-ReturnsAt true true (c ∷ more) w again event e h =
      (tt, record w { stdin = more }, rw e refl)
  round-ReturnsAt true false (c ∷ more) w again event e h =
      let (a, w', r) = h c more refl in (a, w', rw e r)

  -- Each round of the `while` that is not the last one takes a character from the terminal, so there is at
  -- most one round more than there are characters.
  pub talk-ReturnsAt :
      (rounds : ℕ) (conn : Connection) (w : World)
      → length w.stdin < rounds
      → ReturnsAt (talk env unset rounds conn) w
  unfolding talk
  talk-ReturnsAt zero conn w enough = absurd (omega arith)
  talk-ReturnsAt (suc rounds) conn w enough =
      round-ReturnsAt (has_input ret) (hung_up ret) w.stdin polled (talk env unset rounds conn)
        (works.polls w.log conn.socket) refl
        (λ c more e.
          talk-ReturnsAt rounds conn (record polled { stdin = more }) (ground (arith, enough, e)))
    where
      ret : ℤ
      ret = env.result w.log (poll_input conn.socket)

      polled : World
      polled = (ask env (poll_input conn.socket) w).1

  write_light-Returns : (text : Text) (light : Light) → Returns (write_light env text light)
  unfolding write_light
  write_light-Returns text light = record {
    from = λ w. (
      tt,
      (call env close_file (printed w)).1,
      ground (
        arith,
        works.opens w.log (value_path light) (codes "w"),
        works.prints (opened w).log text,
      ),
    );
  }
    where
      opened : World → World
      opened w = (ask env (open_file (value_path light) (codes "w")) w).1

      printed : World → World
      printed w = (ask env (print_file text) (opened w)).1

  stop-Returns : Returns (Control.stop env)
  unfolding Control.stop
  stop-Returns = search returns_rules depth 24

  terminate-Returns : (conn : Connection) → Returns (Session.terminate env conn)
  unfolding Session.terminate
  terminate-Returns conn = search (returns_rules, stop-Returns) depth 12

  start_thread-Returns : (thread : Thread) → Returns (start_thread env thread)
  unfolding start_thread
  start_thread-Returns thread = record {
    from = λ w. (tt, (ask env (create thread) w).1, ground (arith, works.creates w.log thread));
  }

  skip_line-Returns : Returns skip_line
  unfolding skip_line
  skip_line-Returns = record { from = λ w. (tt, _, refl) }

  resume-Returns : Returns (Dial.resume env)
  unfolding Dial.resume
  resume-Returns = Returns->>= (gets (λ w. w.dial.service_suspended)) (Returns-gets _) (λ suspended.
      Returns-cond (not suspended) (Returns-pure tt) (
        Returns->>= skip_line skip_line-Returns
          (λ _. search (returns_rules, start_thread-Returns))))

  -- What follows on a call of the dial service, and of the voice server.
  pub end_out-Returns : (conn : Connection) → Returns (end_out env unset conn)
  unfolding end_out
  end_out-Returns conn = search (returns_rules, write_light-Returns, terminate-Returns) depth 12

  pub end_in-Returns : (conn : Connection) → Returns (end_in env unset conn)
  unfolding end_in
  end_in-Returns conn =
      search (returns_rules, write_light-Returns, terminate-Returns, resume-Returns) depth 12
