-- ===== src/Omni/Patch/Samples.antt =====
-- The samples that a dictionary is trained on.
use zeno_plugin.Prelude.{
  ℕ, zero, suc, ◌+◌, ◌*◌, ◌/◌, ◌≤◌, ◌<◌, ◌≡◌, refl, ap, ◌∙◌, min, max, List, [], ◌∷◌, ◌++◌, arith,
  length, take, drop, length-take, length-drop, take-append-drop, Bool-cases, inl, inr, ltb, false,
}
use zeno_plugin.Chunking.{Bytes}
use zeno_plugin.Omni.Patch.{pieces, sample_step, zstd_training_samples}

abbrev pub concat : List Bytes → Bytes
concat [] = []
concat (x ∷ xs) = x ++ concat xs

-- No sample is empty, and none is longer than `n` bytes.
abbrev pub AllSized : ℕ → List Bytes → Type 0
AllSized n [] = Unit
AllSized n (x ∷ xs) = (0 < length x) × (length x ≤ n) × AllSized n xs

concat-pieces :
    (fuel step : ℕ) (rest : Bytes)
    → 0 < step
    → length rest ≤ fuel
    → concat (pieces fuel step rest) ≡ rest
unfolding pieces
concat-pieces zero step [] pos enough = refl
concat-pieces zero step (b ∷ rest) pos enough = absurd (omega arith)
concat-pieces (suc fuel) step [] pos enough = refl
concat-pieces (suc fuel) step (b ∷ rest) pos enough =
    ap (◌++◌ (take step (b ∷ rest))) (
      concat-pieces fuel step (drop step (b ∷ rest)) pos
        (omega (arith, length-drop step (b ∷ rest))))
    ∙ take-append-drop step (b ∷ rest)

pieces-AllSized : (fuel step : ℕ) (rest : Bytes) → 0 < step → AllSized step (pieces fuel step rest)
unfolding pieces
pieces-AllSized zero step rest pos = tt
pieces-AllSized (suc fuel) step [] pos = tt
pieces-AllSized (suc fuel) step (b ∷ rest) pos = (
  omega (arith, length-take step (b ∷ rest)),
  omega (arith, length-take step (b ∷ rest)),
  pieces-AllSized fuel step (drop step (b ∷ rest)) pos,
)

-- `k` pieces are there where they fit in.
le-length-pieces :
    (k fuel step : ℕ) (rest : Bytes)
    → 0 < step
    → length rest ≤ fuel
    → k * step ≤ length rest
    → k ≤ length (pieces fuel step rest)
unfolding pieces
le-length-pieces zero fuel step rest pos enough fits = omega arith
le-length-pieces (suc k) zero step rest pos enough fits = absurd (ground arith)
le-length-pieces (suc k) (suc fuel) step [] pos enough fits = absurd (ground arith)
le-length-pieces (suc k) (suc fuel) step (b ∷ rest) pos enough fits =
    let tail = length-drop step (b ∷ rest) in
    let room : suc k * step ≡ step + k * step = grind arith in
    let next : k ≤ length (pieces fuel step (drop step (b ∷ rest))) =
      le-length-pieces k fuel step (drop step (b ∷ rest)) pos (omega (arith, tail))
        (omega (arith, tail, room)) in
    omega (arith, next)

step_pos : (m n : ℕ) → 0 < sample_step m n
unfolding sample_step
step_pos m n = omega arith

div_fits : (n d : ℕ) → 8 ≤ d → 8 * (n / d) ≤ n
div_fits n d h = grind arith

step_fits : (m n : ℕ) → 8 ≤ n → 8 * sample_step m n ≤ n
unfolding sample_step
step_fits m n h = omega (arith, div_fits n (max 8 (min 256 (n / 4096))) (omega arith))

step_small : (m n : ℕ) → n < 8 → sample_step m n ≡ 1
unfolding sample_step
step_small m n h =
    let few : n / 4096 ≡ 0 = omega arith in
    let none_left : n / 8 ≡ 0 = omega arith in rw (few, none_left) (omega arith)

step_bound : (m n : ℕ) → sample_step m n ≤ max 1 m
unfolding sample_step
step_bound m n = omega arith

AllSized-mono : (m n : ℕ) (xs : List Bytes) → m ≤ n → AllSized m xs → AllSized n xs
AllSized-mono m n [] h a = tt
AllSized-mono m n (x ∷ xs) h (pos, size, a) = (pos, omega arith, AllSized-mono m n xs h a)

many :
    (m : ℕ) (parent : Bytes)
    → min 8 (length parent) ≤ length (pieces (length parent) (sample_step m (length parent)) parent)
many m parent = elim (Bool-cases (ltb (length parent) 8)) [
  | inl small ↦
      let e = step_small m (length parent) (ground arith) in
      omega (
        arith,
        le-length-pieces (length parent) (length parent) (sample_step m (length parent)) parent
            (step_pos m (length parent)) (omega arith) (rw e (omega arith)),
      )
  | inr big ↦ omega (
    arith,
    le-length-pieces 8 (length parent) (sample_step m (length parent)) parent
        (step_pos m (length parent)) (omega arith) (step_fits m (length parent) (ground arith)),
  )
]

-- The samples of a parent of two bytes or more are the parent, cut into pieces that are neither
-- empty nor longer than `max_chunk` (or one byte, where that is 0). There are at least eight of
-- them, or one for each byte of a shorter parent.
pub zstd_training_samples-Sized :
    (max_chunk : ℕ) (parent : Bytes)
    → 2 ≤ length parent
    → (concat (zstd_training_samples max_chunk parent) ≡ parent)
      × AllSized (max 1 max_chunk) (zstd_training_samples max_chunk parent)
      × (min 8 (length parent) ≤ length (zstd_training_samples max_chunk parent))
unfolding zstd_training_samples
zstd_training_samples-Sized m parent h =
    let n = length parent in
    let step = sample_step m n in
    let count = many m parent in
    let long : ltb n 2 ≡ false = ground arith in
    let several : ltb (length (pieces n step parent)) 2 ≡ false = ground arith in
    rw (long, several)
      (
        concat-pieces n step parent (step_pos m n) (omega arith),
        AllSized-mono step (max 1 m) (pieces n step parent) (step_bound m n)
            (pieces-AllSized n step parent (step_pos m n)),
        count,
      )
