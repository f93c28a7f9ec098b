-- ===== src/World/Ends.antt =====
-- What holds of the statics whenever an action comes to its end.
use bbg_vo_ip.Prelude.{◌≡◌, Bool, true, false, cond}
use bbg_vo_ip.Sys.{Result, ok, exits, fault, unfinished}
use bbg_vo_ip.World.{World, Act, out_of_rounds, continue, ◌>>=◌}

-- `P` holds of the last world of every run of `m` that returns a value.
pub data Ends {A : Type 0} (P : World → Type 0) (m : Act A) : Type 0 where
  ends : ((w w' : World) (a : A) → m w ≡ (ok a, w') → P w') → Ends P m

pub ended :
    {A : Type 0} {P : World → Type 0} {m : Act A}
    → Ends P m
    → (w w' : World) (a : A) → m w ≡ (ok a, w')
    → P w'
ended (ends h) = h

module _ (P : World → Type 0) where
  pub Ends-out_of_rounds : {A : Type 0} → Ends P (out_of_rounds {A = A})
  Ends-out_of_rounds = ends (λ w w' a e. cc)

  pub Ends-cond : {A : Type 0} (b : Bool) {m k : Act A} → Ends P m → Ends P k → Ends P (cond b m k)
  Ends-cond true hm hk = hm
  Ends-cond false hm hk = hk

  Ends-continue :
      {A B : Type 0} (r : Result A) (f : A → Act B)
      → ((a : A) → Ends P (f a))
      → (w w' : World) (b : B) → continue r f w ≡ (ok b, w')
      → P w'
  Ends-continue (ok a) f h w w' b e = ended (h a) w w' b e
  Ends-continue (exits code) f h w w' b e = cc
  Ends-continue fault f h w w' b e = cc
  Ends-continue unfinished f h w w' b e = cc

  -- It is enough that it holds after the last step.
  pub Ends->>= :
      {A B : Type 0} (m : Act A) {f : A → Act B} → ((a : A) → Ends P (f a)) → Ends P (m >>= f)
  Ends->>= m {f} h = ends (λ w w' b e. Ends-continue (m w).0 f h (m w).1 w' b e)
