-- ===== src/World/Triple.antt =====
-- What holds of the value and of the statics when an action returns, from what holds of the statics before.
use bbg_vo_ip.Prelude.{
  ◌≡◌, ap, ◌∙◌, Bool, true, false, cond, Option, none, some, arith, refl, sym, subst,
}
use bbg_vo_ip.Sys.{Result, ok, exits, fault, unfinished}
use bbg_vo_ip.World.{World, Act, pure, continue, ◌>>=◌}
use bbg_vo_ip.World.Keeps.{Keeps}

-- Where `P` holds before and `m` returns, `Q` holds after it.
pub data Triple {A : Type 0} (P : World → Type 0) (m : Act A) (Q : A → World → Type 0)
    : Type 0 where
  triple : ((w w' : World) (a : A) → P w → m w ≡ (ok a, w') → Q a w') → Triple P m Q

pub run_triple :
    {A : Type 0} {P : World → Type 0} {m : Act A} {Q : A → World → Type 0}
    → Triple P m Q
    → (w w' : World) (a : A) → P w
    → m w ≡ (ok a, w')
    → Q a w'
run_triple (triple h) = h

module _ {A : Type 0} (P : World → Type 0) (Q : A → World → Type 0) where
  pub Triple-pure : (a : A) → ((w : World) → P w → Q a w) → Triple P (pure a) Q
  Triple-pure a h = triple (λ w w' b p e. ground (arith, h w p))

  pub Triple-cond : (b : Bool) {m k : Act A} → Triple P m Q → Triple P k Q → Triple P (cond b m k) Q
  Triple-cond true hm hk = hm
  Triple-cond false hm hk = hk

  -- With the outcome of the test known in each branch.
  pub Triple-cond_when :
      (b : Bool) {m k : Act A}
      → (b ≡ true → Triple P m Q)
      → (b ≡ false → Triple P k Q)
      → Triple P (cond b m k) Q
  Triple-cond_when true hm hk = hm refl
  Triple-cond_when false hm hk = hk refl

  pub Triple-elim :
      {C : Type 0} (o : Option C) {m : Act A} {k : C → Act A}
      → Triple P m Q
      → ((c : C) → Triple P (k c) Q)
      → Triple P (elim o [ none ↦ m | some c ↦ k c ]) Q
  Triple-elim none hm hk = hm
  Triple-elim (some c) hm hk = hk c

  Triple-continue :
      {C : Type 0} (R : C → World → Type 0) (r : Result C) {g : C → Act A} (v w : World) (a : A)
      → ((c : C) → Triple (R c) (g c) Q)
      → ((c : C) → r ≡ ok c → R c v)
      → continue r g v ≡ (ok a, w)
      → Q a w
  Triple-continue R (ok c) v w a h hr e = run_triple (h c) v w a (hr c refl) e
  Triple-continue R (exits code) v w a h hr e = cc
  Triple-continue R fault v w a h hr e = cc
  Triple-continue R unfinished v w a h hr e = cc

  pub Triple->>= :
      {C : Type 0} (R : C → World → Type 0) (m : Act C) {g : C → Act A}
      → Triple P m R
      → ((c : C) → Triple (R c) (g c) Q)
      → Triple P (m >>= g) Q
  Triple->>= R m hm h = triple (λ w w' a p e.
      Triple-continue R (m w).0 (m w).1 w' a h
        (λ c r. run_triple hm w (m w).1 c p (ap (λ x. (x, (m w).1)) r)) e)

-- What holds of a part that is kept holds after as before.
module _ {A B : Type 0} {f : World → B} {m : Act A} where
  pub Triple-Keeps_where : (Q : B → Type 0) → Keeps f m → Triple (λ w. Q (f w)) m (λ a w. Q (f w))
  Triple-Keeps_where Q k = triple (λ w w' a p e. subst Q (sym (k.at w) ∙ ap (λ r. f r.1) e) p)

  pub Triple-Keeps : (b : B) → Keeps f m → Triple (λ w. f w ≡ b) m (λ a w. f w ≡ b)
  Triple-Keeps b k = Triple-Keeps_where (λ x. x ≡ b) k
