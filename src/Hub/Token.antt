-- ===== src/Hub/Token.antt =====
-- chimera_hub/server.py, `_consteq`: the comparison of a presented token with the hub's.
use Prim.Native.Nat.{bit_or, bit_xor, bit_or-bitwise, bit_xor-bitwise, digits, differ}
use mathlib.Core.Path.{subst}
use zeno_plugin.Prelude.{
  ℕ, zero, suc, ◌/◌, ◌%◌, ◌≤◌, max, ◌≡◌, refl, sym, ap, ◌∙◌, Bool, true, false, not, [], ◌∷◌, arith,
  ◌==◌, ==_iff, if◌then◌else◌, length, ◌↔◌, inl, inr, Bool-cases,
}
use zeno_plugin.Prelude.Text.{Text}

-- `result |= ord(x) ^ ord(y)` for each pair of `zip(a, b)`
unfoldable pub fold_diff : ℕ → Text → Text → ℕ
fold_diff result (x ∷ a) (y ∷ b) = fold_diff (bit_or result (bit_xor x y)) a b
fold_diff result _ _ = result

unfoldable pub consteq : Text → Text → Bool
unfolding fold_diff
consteq a b = if not (length a == length b) then false else fold_diff 0 a b == 0

differ_zero : (x y : ℕ) → differ x y ≡ 0 → x ≡ y
differ_zero zero y h = sym h
differ_zero (suc x) zero h = h
differ_zero (suc x) (suc y) h = ap suc (differ_zero x y h)

differ_same : (x : ℕ) → differ x x ≡ 0
differ_same zero = refl
differ_same (suc x) = differ_same x

xor_zero : (n a b : ℕ) → a ≤ n → digits (λ b. b) differ n a b ≡ 0 → a ≡ b
xor_zero zero a b h e = omega arith
xor_zero (suc n) zero b h e = sym e
xor_zero (suc n) (suc a) b h e =
    let low : differ (suc a % 2) (b % 2) ≡ 0 = omega (arith, e) in
    let high : digits (λ b. b) differ n (suc a / 2) (b / 2) ≡ 0 = omega (arith, e) in
    let same_low = differ_zero (suc a % 2) (b % 2) low in
    let same_high = xor_zero n (suc a / 2) (b / 2) (omega arith) high in
    omega (arith, same_low, same_high)

xor_same : (n a : ℕ) → a ≤ n → digits (λ b. b) differ n a a ≡ 0
xor_same zero a h = omega arith
xor_same (suc n) zero h = refl
xor_same (suc n) (suc a) h =
    omega (arith, xor_same n (suc a / 2) (omega arith), differ_same (suc a % 2))

or_zero : (n a b : ℕ) → a ≤ n → digits (λ b. b) max n a b ≡ 0 → (a ≡ 0) × (b ≡ 0)
or_zero zero a b h e = (omega arith, omega arith)
or_zero (suc n) zero b h e = (refl, e)
or_zero (suc n) (suc a) b h e =
    let low : max (suc a % 2) (b % 2) ≡ 0 = omega (arith, e) in
    let high : digits (λ b. b) max n (suc a / 2) (b / 2) ≡ 0 = omega (arith, e) in
    let both = or_zero n (suc a / 2) (b / 2) (omega arith) high in
    (absurd (omega (arith, low, both.0)), omega (arith, low, both.1))

bit_xor_zero : (x y : ℕ) → bit_xor x y ≡ 0 → x ≡ y
bit_xor_zero x y h = xor_zero x x y (omega arith) (sym (bit_xor-bitwise x y) ∙ h)

bit_xor_same : (x : ℕ) → bit_xor x x ≡ 0
bit_xor_same x = bit_xor-bitwise x x ∙ xor_same x x (omega arith)

bit_or_zero : (x y : ℕ) → bit_or x y ≡ 0 → (x ≡ 0) × (y ≡ 0)
bit_or_zero x y h = or_zero x x y (omega arith) (sym (bit_or-bitwise x y) ∙ h)

zero_or_zero : bit_or 0 0 ≡ 0
zero_or_zero = bit_or-bitwise 0 0

fold_diff_zero :
    (r : ℕ) (a b : Text) → length a ≡ length b → fold_diff r a b ≡ 0 → (r ≡ 0) × (a ≡ b)
unfolding fold_diff
fold_diff_zero r [] [] l h = (h, refl)
fold_diff_zero r [] (y ∷ b) l h = absurd (omega (arith, l))
fold_diff_zero r (x ∷ a) [] l h = absurd (omega (arith, l))
fold_diff_zero r (x ∷ a) (y ∷ b) l h =
    let (mixed, tails) = fold_diff_zero (bit_or r (bit_xor x y)) a b (omega (arith, l)) h in
    let (clear, heads) = bit_or_zero r (bit_xor x y) mixed in
    let first : x ≡ y = bit_xor_zero x y heads in (clear, cc)

fold_diff_same : (a : Text) → fold_diff 0 a a ≡ 0
unfolding fold_diff
fold_diff_same [] = refl
fold_diff_same (x ∷ a) = rw (bit_xor_same x, zero_or_zero) (fold_diff_same a)

-- The comparison that does not stop at the first difference decides equality.
pub consteq_iff : (a b : Text) → (consteq a b ≡ true) ↔ (a ≡ b)
unfolding consteq
consteq_iff a b = (equal, λ e. subst (λ c. consteq a c ≡ true) e itself)
  where
    itself : consteq a a ≡ true
    itself =
        let l : (length a == length a) ≡ true = (==_iff (length a) (length a)).1 refl in
        rw (l, fold_diff_same a) refl

    equal : consteq a b ≡ true → a ≡ b
    equal h = elim (Bool-cases (length a == length b)) [
      | inl l ↦
          (fold_diff_zero 0 a b ((==_iff (length a) (length b)).0 l)
            ((==_iff (fold_diff 0 a b) 0).0 (ground (arith, l, h)))).1
      | inr l ↦ absurd (ground (arith, l, h))
    ]
