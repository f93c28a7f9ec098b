-- ===== src/World/Gives.antt =====
-- What holds of the value of an action whenever it returns one.
use bbg_vo_ip.Prelude.{◌≡◌, refl, ap, arith, Bool, true, false, cond}
use bbg_vo_ip.Sys.{Result, ok, exits, fault, unfinished}
use bbg_vo_ip.World.{World, Act, pure, access_fault, out_of_rounds, continue, ◌>>=◌}

pub data Gives {A : Type 0} (P : A → Type 0) (m : Act A) : Type 0 where
  gives : ((w w' : World) (a : A) → m w ≡ (ok a, w') → P a) → Gives P m

pub given :
    {A : Type 0} {P : A → Type 0} {m : Act A}
    → Gives P m
    → (w w' : World) (a : A) → m w ≡ (ok a, w')
    → P a
given (gives h) = h

module _ {A : Type 0} (P : A → Type 0) where
  pub Gives-pure : (a : A) → P a → Gives P (pure a)
  Gives-pure a h = gives (λ w w' b e. ground (arith, h))

  pub Gives-access_fault : Gives P access_fault
  Gives-access_fault = gives (λ w w' a e. cc)

  pub Gives-out_of_rounds : Gives P out_of_rounds
  Gives-out_of_rounds = gives (λ w w' a e. cc)

  pub Gives-cond :
      (b : Bool) {m k : Act A}
      → (b ≡ true → Gives P m)
      → (b ≡ false → Gives P k)
      → Gives P (cond b m k)
  Gives-cond true hm hk = hm refl
  Gives-cond false hm hk = hk refl

module _ {A B : Type 0} (Q : A → Type 0) (P : B → Type 0) where
  Gives-continue :
      (r : Result A) (f : A → Act B)
      → ((a : A) → Q a → Gives P (f a))
      → ((a : A) → r ≡ ok a → Q a)
      → (w w' : World) (b : B) → continue r f w ≡ (ok b, w')
      → P b
  Gives-continue (ok a) f h q w w' b e = given (h a (q a refl)) w w' b e
  Gives-continue (exits code) f h q w w' b e = cc
  Gives-continue fault f h q w w' b e = cc
  Gives-continue unfinished f h q w w' b e = cc

  pub Gives->>= :
      (m : Act A) {f : A → Act B} → Gives Q m → ((a : A) → Q a → Gives P (f a)) → Gives P (m >>= f)
  Gives->>= m {f} hm h = gives (λ w w' b e.
      Gives-continue (m w).0 f h (λ a r. given hm w (m w).1 a (ap (λ x. (x, (m w).1)) r)) (m w).1 w'
        b e)

-- Nothing is said of a value.
abbrev pub Any : {A : Type 0} → A → Type 0
Any a = Unit

pub Gives-Any : {A : Type 0} (m : Act A) → Gives Any m
Gives-Any m = gives (λ w w' a e. tt)
