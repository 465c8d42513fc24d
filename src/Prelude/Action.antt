-- ===== src/Prelude/Action.antt =====
-- Methods that change an object and may raise: what was changed before a raise stays changed, so
-- the new state comes back beside the error too. Triples state what an action keeps and promises.
use mathlib.Core.Path.{◌≡◌, refl, ◌∙◌}
use mathlib.Core.Bool.{Bool, true, false}
use zeno_plugin.Prelude.Tests.{if◌then◌else◌}
use zeno_plugin.Prelude.Result.{Result, ok, err}

abbrev pub Action : Type 0 → Type 0 → Type 0 → Type 0
Action E S A = S → Result E A × S

module _ {E S A : Type 0} where
  abbrev pub pure : A → Action E S A
  pure a s = (ok a, s)

  abbrev pub raise : E → Action E S A
  raise e s = (err e, s)

  abbrev pub gets : (S → A) → Action E S A
  gets f s = (ok (f s), s)

module _ {E S A B : Type 0} where
  abbrev pub continue : Result E A → (A → Action E S B) → Action E S B
  continue (ok a) f s = f a s
  continue (err e) f s = (err e, s)

  infixl 10 ◌>>=◌
  unfoldable pub ◌>>=◌ : Action E S A → (A → Action E S B) → Action E S B
  ◌>>=◌ m f s = let (r, s') = m s in continue r f s'

module _ {E S B : Type 0} where
  infixl 10 ◌>>◌
  abbrev pub ◌>>◌ : Action E S (Unit {0}) → Action E S B → Action E S B
  m >> n = m >>= λ _. n

module _ {E S A : Type 0} where
  -- The state keeps `inv` in any case, and meets `post` where a value is returned.
  abbrev pub Outcome : (S → Type 0) → (A → S → Type 0) → Result E A → S → Type 0
  Outcome inv post (ok a) s = inv s × post a s
  Outcome inv post (err e) s = inv s

  pub record Triple (pre inv : S → Type 0) (post : A → S → Type 0) (m : Action E S A) : Type 0 where
    pub run : (s : S) → pre s → Outcome inv post (m s).0 (m s).1

module _ {E S A : Type 0} where
  Outcome-map :
      (inv : S → Type 0) (post post' : A → S → Type 0) (r : Result E A) (s : S)
      → ((a : A) → post a s → post' a s)
      → Outcome inv post r s
      → Outcome inv post' r s
  Outcome-map inv post post' (ok a) s f (i, p) = (i, f a p)
  Outcome-map inv post post' (err e) s f i = i

  pub Triple-post :
      {pre inv : S → Type 0} {post post' : A → S → Type 0} {m : Action E S A}
      → ((a : A) (s : S) → post a s → post' a s)
      → Triple pre inv post m
      → Triple pre inv post' m
  Triple-post {inv} {post} {post'} {m} f t = record {
    run = λ s h. Outcome-map inv post post' (m s).0 (m s).1 (λ a. f a (m s).1) (t.run s h);
  }

module _ {E S A B : Type 0} {inv : S → Type 0} {mid : A → S → Type 0} {post : B → S → Type 0} where
  Outcome-continue :
      (f : A → Action E S B)
      → ((a : A) → Triple (λ s. inv s × mid a s) inv post (f a))
      → (r : Result E A) (s : S) → Outcome inv mid r s
      → Outcome inv post (continue r f s).0 (continue r f s).1
  Outcome-continue f t (ok a) s h = (t a).run s h
  Outcome-continue f t (err e) s h = h

  pub Triple-bind :
      {pre : S → Type 0} {m : Action E S A} {f : A → Action E S B}
      → Triple pre inv mid m
      → ((a : A) → Triple (λ s. inv s × mid a s) inv post (f a))
      → Triple pre inv post (m >>= f)
  unfolding ◌>>=◌
  Triple-bind {m} {f} t u = record { run = λ s h. Outcome-continue f u (m s).0 (m s).1 (t.run s h) }

module _ {E S A : Type 0} {pre inv : S → Type 0} {post : A → S → Type 0} where
  pub Triple-if :
      (b : Bool) (m n : Action E S A)
      → (b ≡ true → Triple pre inv post m)
      → (b ≡ false → Triple pre inv post n)
      → Triple pre inv post (if b then m else n)
  Triple-if true m n t u = t refl
  Triple-if false m n t u = u refl

  pub Triple-weaken :
      {pre' : S → Type 0} {m : Action E S A}
      → ((s : S) → pre' s → pre s)
      → Triple pre inv post m
      → Triple pre' inv post m
  Triple-weaken k t = record { run = λ s h. t.run s (k s h) }

-- One step of a `do` block that returns.
pub bind_ok :
    {E S A B : Type 0} (m : Action E S A) (f : A → Action E S B) (s : S) {a : A} {s' : S}
    → m s ≡ (ok a, s')
    → (m >>= f) s ≡ f a s'
unfolding ◌>>=◌
bind_ok m f s {a} {s'} e = rw e refl

module _ {E S A : Type 0} where
  -- `m` raises in no state.
  pub record AlwaysReturns (m : Action E S A) : Type 0 where
    pub run : (s : S) → (a : A) × (t : S) × (m s ≡ (ok a, t))

module _ {E S A B : Type 0} where
  pub AlwaysReturns-bind :
      {m : Action E S A} {f : A → Action E S B}
      → AlwaysReturns m
      → ((a : A) → AlwaysReturns (f a))
      → AlwaysReturns (m >>= f)
  AlwaysReturns-bind {m} {f} r k = record {
    run = λ s.
        let (a, t, e) = r.run s in let (b, u, e') = (k a).run t in (b, u, bind_ok m f s e ∙ e');
  }
