-- ===== src/Prelude/Result.antt =====
-- Fallible code as values: `raise` is `err`, and `try` is a case on the result. Methods that change
-- objects and may raise are actions: what was changed before a raise stays changed.
pub data Result {ℓ κ} (E : Type ℓ) (A : Type κ) : Type (ℓ ⊔ κ) where
  ok : A → Result E A
  err : E → Result E A

infixl 10 ◌>>=◌
abbrev pub ◌>>=◌ {ℓ κ μ} :
    {E : Type ℓ} {A : Type κ} {B : Type μ} → Result E A → (A → Result E B) → Result E B
ok a >>= f = f a
err e >>= f = err e
