-- ===== src/Prelude/Clean.antt =====
-- `s.strip().lower()` done twice is the same as done once.
use Prim.Native.Nat.{ℕ}
use mathlib.Core.Path.{◌≡◌, refl, sym, ap, ◌∙◌}
use mathlib.Core.Logic.{inl, inr}
use mathlib.Core.Bool.{Bool, true, false}
use mathlib.Core.List.{[], ◌∷◌, ◌++◌, map, reverse, reverse-append, reverse-reverse, map-append}
use native.Mathlib.Omega.{arith}
use zeno_plugin.Prelude.Tests.{if◌then◌else◌, Bool-cases}
use zeno_plugin.Prelude.Text.{Text, is_space, lower_code, lower, lstrip, strip}

-- Lower case changes no blank, and makes none.
is_space-lower_code : (c : ℕ) → is_space (lower_code c) ≡ is_space c
is_space-lower_code c = ground arith

lower_code-lower_code : (c : ℕ) → lower_code (lower_code c) ≡ lower_code c
lower_code-lower_code c = ground arith

lower-lower : (s : Text) → lower (lower s) ≡ lower s
unfolding lower
lower-lower [] = refl
lower-lower (c ∷ s) = rw (lower_code-lower_code c) (ap (◌∷◌ (lower_code c)) (lower-lower s))

lower-reverse : (s : Text) → lower (reverse s) ≡ reverse (lower s)
unfolding lower
lower-reverse [] = refl
lower-reverse (c ∷ s) =
    ap (map lower_code) (reverse-append (c ∷ []) s)
    ∙ map-append lower_code (reverse s) (c ∷ [])
    ∙ ap (λ r. r ++ lower_code c ∷ []) (lower-reverse s)
    ∙ sym (reverse-append (lower_code c ∷ []) (map lower_code s))

-- By the test that decides it.
lstrip_step :
    (c : ℕ) (s : Text) (b : Bool)
    → is_space c ≡ b
    → lstrip (c ∷ s) ≡ (if b then lstrip s else c ∷ s)
unfolding lstrip
lstrip_step c s b e = rw e refl

lstrip-lower : (s : Text) → lstrip (lower s) ≡ lower (lstrip s)
unfolding lower
lstrip-lower [] = unfold lstrip in refl
lstrip-lower (c ∷ s) = elim (Bool-cases (is_space c)) [
  | inl t ↦
      lstrip_step (lower_code c) (lower s) true (is_space-lower_code c ∙ t)
      ∙ lstrip-lower s
      ∙ ap lower (sym (lstrip_step c s true t))
  | inr f ↦
      lstrip_step (lower_code c) (lower s) false (is_space-lower_code c ∙ f)
      ∙ ap lower (sym (lstrip_step c s false f))
]

lstrip-lstrip : (s : Text) → lstrip (lstrip s) ≡ lstrip s
unfolding lstrip
lstrip-lstrip [] = refl
lstrip-lstrip (c ∷ s) = elim (Bool-cases (is_space c)) [
  | inl t ↦ rw t (lstrip-lstrip s)
  | inr f ↦ rw (f, f) refl
]

lstrip_snoc : (s : Text) (c : ℕ) → is_space c ≡ false → lstrip (s ++ c ∷ []) ≡ lstrip s ++ c ∷ []
unfolding lstrip
lstrip_snoc [] c f = rw f refl
lstrip_snoc (d ∷ s) c f = elim (Bool-cases (is_space d)) [
  | inl t ↦ rw t (lstrip_snoc s c f)
  | inr g ↦ rw g refl
]

-- `s.rstrip()`
abbrev rstrip : Text → Text
rstrip s = reverse (lstrip (reverse s))

rstrip-rstrip : (s : Text) → rstrip (rstrip s) ≡ rstrip s
rstrip-rstrip s =
    ap (λ r. reverse (lstrip r)) (reverse-reverse (lstrip (reverse s)))
    ∙ ap reverse (lstrip-lstrip (reverse s))

-- A front that is no blank stays.
rstrip_cons : (c : ℕ) (s : Text) → is_space c ≡ false → rstrip (c ∷ s) ≡ c ∷ rstrip s
rstrip_cons c s f =
    ap (λ r. reverse (lstrip r)) (reverse-append (c ∷ []) s)
    ∙ ap reverse (lstrip_snoc (reverse s) c f)
    ∙ reverse-append (lstrip (reverse s)) (c ∷ [])

-- Stripping the right leaves the left stripped.
lstrip-rstrip : (s : Text) → lstrip (rstrip (lstrip s)) ≡ rstrip (lstrip s)
unfolding lstrip
lstrip-rstrip [] = refl
lstrip-rstrip (c ∷ s) = elim (Bool-cases (is_space c)) [
  | inl t ↦ rw t (lstrip-rstrip s)
  | inr f ↦ rw f (rw (rstrip_cons c s f) (lstrip_step c (rstrip s) false f))
]

pub strip-strip : (s : Text) → strip (strip s) ≡ strip s
unfolding strip
strip-strip s = ap rstrip (lstrip-rstrip s) ∙ rstrip-rstrip (lstrip s)

strip-lower : (s : Text) → strip (lower s) ≡ lower (strip s)
unfolding strip
strip-lower s =
    ap rstrip (lstrip-lower s)
    ∙ ap (λ r. reverse (lstrip r)) (sym (lower-reverse (lstrip s)))
    ∙ ap reverse (lstrip-lower (reverse (lstrip s)))
    ∙ sym (lower-reverse (lstrip (reverse (lstrip s))))

pub lower-strip_twice : (s : Text) → lower (strip (lower (strip s))) ≡ lower (strip s)
lower-strip_twice s =
    ap lower (strip-lower (strip s)) ∙ lower-lower (strip (strip s)) ∙ ap lower (strip-strip s)
