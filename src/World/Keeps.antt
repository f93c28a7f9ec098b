-- ===== src/World/Keeps.antt =====
-- Actions that leave a part of the statics as it is, however they end.
use bbg_vo_ip.Prelude.{◌≡◌, refl, ◌∙◌, Bool, true, false, cond, Option, none, some, ◌∷◌}
use bbg_vo_ip.Sys.{
  Env, Call, Result, ok, exits, fault, unfinished, create, cancel, join, call_poll, pa_close,
  clear_queues,
}
use bbg_vo_ip.World.{
  World, Act, pure, exit, access_fault, out_of_rounds, gets, continue, ◌>>=◌, ask, call, ask_bytes,
  ask_text,
}
use bbg_vo_ip.Prelude.Int.{ℤ}

-- `m` leaves `f` as it is.
pub record Keeps {A B : Type 0} (f : World → B) (m : Act A) : Type 0 where
  pub at : (w : World) → f (m w).1 ≡ f w

module _ {A B : Type 0} (f : World → B) where
  pub Keeps-pure : (a : A) → Keeps f (pure a)
  Keeps-pure a = record { at = λ w. refl }

  pub Keeps-exit : (code : _) → Keeps f (exit {A = A} code)
  Keeps-exit code = record { at = λ w. refl }

  pub Keeps-access_fault : Keeps f (access_fault {A = A})
  Keeps-access_fault = record { at = λ w. refl }

  pub Keeps-out_of_rounds : Keeps f (out_of_rounds {A = A})
  Keeps-out_of_rounds = record { at = λ w. refl }

  pub Keeps-gets : (g : World → A) → Keeps f (gets g)
  Keeps-gets g = record { at = λ w. refl }

  pub Keeps-cond : (b : Bool) {m k : Act A} → Keeps f m → Keeps f k → Keeps f (cond b m k)
  Keeps-cond true hm hk = hm
  Keeps-cond false hm hk = hk

module _ {A C B : Type 0} (f : World → B) where
  pub Keeps-elim :
      (o : Option C) {m : Act A} {k : C → Act A}
      → Keeps f m
      → ((c : C) → Keeps f (k c))
      → Keeps f (elim o [ none ↦ m | some c ↦ k c ])
  Keeps-elim none hm hk = hm
  Keeps-elim (some c) hm hk = hk c

  Keeps-continue :
      (r : Result A) {g : A → Act C}
      → ((a : A) → Keeps f (g a))
      → (w : World) → f (continue r g w).1 ≡ f w
  Keeps-continue (ok a) h w = (h a).at w
  Keeps-continue (exits code) h w = refl
  Keeps-continue fault h w = refl
  Keeps-continue unfinished h w = refl

  pub Keeps->>= :
      (m : Act A) {g : A → Act C} → Keeps f m → ((a : A) → Keeps f (g a)) → Keeps f (m >>= g)
  Keeps->>= m {g} hm h = record { at = λ w. Keeps-continue (m w).0 h (m w).1 ∙ hm.at w }

-- A call that is made changes nothing of `f` by being in the log.
pub record Ignores {B : Type 0} (f : World → B) (c : Call) : Type 0 where
  pub at : (w : World) (n : ℤ) → f (record w { log = (c, n) ∷ w.log }) ≡ f w

-- The calls that start, cancel or join none of the program's own threads but that of a call, and close no
-- audio stream and empty no queue.
abbrev pub is_plain : Call → Bool
is_plain (create (call_poll socket)) = true
is_plain (create thread) = false
is_plain (cancel thread) = false
is_plain (join thread) = false
is_plain pa_close = false
is_plain clear_queues = false
is_plain _ = true

module _ {B : Type 0} (f : World → B) (env : Env) where
  pub Keeps-ask : (c : Call) → Ignores f c → Keeps f (ask env c)
  Keeps-ask c h = record { at = λ w. h.at w _ }

  pub Keeps-call : (c : Call) → Ignores f c → Keeps f (call env c)
  Keeps-call c h = record { at = λ w. h.at w _ }

  pub Keeps-ask_bytes : (c : Call) → Ignores f c → Keeps f (ask_bytes env c)
  Keeps-ask_bytes c h = record { at = λ w. h.at w _ }

  pub Keeps-ask_text : (c : Call) → Ignores f c → Keeps f (ask_text env c)
  Keeps-ask_text c h = record { at = λ w. h.at w _ }

pub ruleset keeps_rules = (
  Keeps-pure, Keeps-exit, Keeps-access_fault, Keeps-out_of_rounds, Keeps-gets, Keeps-cond,
  Keeps->>=, Keeps-ask, Keeps-call, Keeps-ask_bytes, Keeps-ask_text,
)
