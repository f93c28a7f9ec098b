-- ===== src/World/Returns.antt =====
-- Actions that return a value from every world: they neither end the program nor stay in a loop.
use bbg_vo_ip.Prelude.{◌≡◌, refl, ap, ◌∙◌, Bool, true, false, cond}
use bbg_vo_ip.Sys.{Env, Call, ok, Result, exits, fault, unfinished}
use bbg_vo_ip.World.{World, Act, pure, gets, modify, continue, ◌>>=◌, ask, call}

-- `m` returns from `w`.
abbrev pub ReturnsAt : {A : Type 0} → Act A → World → Type 0
ReturnsAt {A} m w = (a : A) × (w' : World) × (m w ≡ (ok a, w'))

pub record Returns {A : Type 0} (m : Act A) : Type 0 where
  pub from : (w : World) → ReturnsAt m w

module _ {A : Type 0} where
  pub Returns-pure : (a : A) → Returns (pure a)
  Returns-pure a = record { from = λ w. (a, w, refl) }

  pub Returns-gets : (f : World → A) → Returns (gets f)
  Returns-gets f = record { from = λ w. (f w, w, refl) }

  pub Returns-cond : (b : Bool) {m k : Act A} → Returns m → Returns k → Returns (cond b m k)
  Returns-cond true hm hk = hm
  Returns-cond false hm hk = hk

module _ {A B : Type 0} where
  -- After a part that returns, the whole does as the rest does.
  pub ReturnsAt->>= :
      (m : Act A) {g : A → Act B} (w : World)
      → ReturnsAt m w
      → ((a : A) → Returns (g a))
      → ReturnsAt (m >>= g) w
  ReturnsAt->>= m {g} w (a, v, e) h =
      let (b, w', e') = (h a).from v in (b, w', ap (λ r. continue r.0 g r.1) e ∙ e')

  pub Returns->>= :
      (m : Act A) {g : A → Act B} → Returns m → ((a : A) → Returns (g a)) → Returns (m >>= g)
  Returns->>= m hm h = record { from = λ w. ReturnsAt->>= m w (hm.from w) h }

module _ (env : Env) where
  pub Returns-ask : (c : Call) → Returns (ask env c)
  Returns-ask c = record { from = λ w. (_, _, refl) }

  pub Returns-call : (c : Call) → Returns (call env c)
  Returns-call c = record { from = λ w. (_, _, refl) }

pub Returns-modify : (f : World → World) → Returns (modify f)
Returns-modify f = record { from = λ w. (tt, f w, refl) }

pub ruleset returns_rules = (
  Returns-pure, Returns-gets, Returns-cond, Returns->>=, Returns-ask, Returns-call, Returns-modify,
)

module _ {A B : Type 0} where
  split_continue :
      (r : Result A) (g : A → Act B) (v w' : World) (b : B)
      → continue r g v ≡ (ok b, w')
      → (a : A) × (r ≡ ok a) × (g a v ≡ (ok b, w'))
  split_continue (ok a) g v w' b e = (a, refl, e)
  split_continue (exits code) g v w' b e = cc
  split_continue fault g v w' b e = cc
  split_continue unfinished g v w' b e = cc

  -- Where the whole returns, its first part has returned, and the rest from there.
  pub split :
      (m : Act A) {g : A → Act B} (w w' : World) (b : B)
      → (m >>= g) w ≡ (ok b, w')
      → (a : A) × (v : World) × (m w ≡ (ok a, v)) × (g a v ≡ (ok b, w'))
  split m {g} w w' b e =
      let (a, r, rest) = split_continue (m w).0 g (m w).1 w' b e in
      (a, (m w).1, ap (λ x. (x, (m w).1)) r, rest)

  -- And the other way round.
  pub joined :
      (m : Act A) (g : A → Act B) {w v w' : World} {a : A} {b : B}
      → m w ≡ (ok a, v)
      → g a v ≡ (ok b, w')
      → (m >>= g) w ≡ (ok b, w')
  joined m g e rest = ap (λ r. continue r.0 g r.1) e ∙ rest
