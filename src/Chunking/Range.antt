-- ===== src/Chunking/Range.antt =====
-- `iter_chunks_in_range`: the chunks cover the range, at absolute offsets.
use Prim.Native.Nat.{min as min_ℕ}
use mathlib.Core.Path.{subst}
use zeno_plugin.Prelude.{
  ℕ, zero, suc, ◌+◌, ◌-◌, ◌≤◌, ◌<◌, ◌≡◌, refl, sym, ap, ◌∙◌, inl, inr, true, ◌||◌, List, [], leb,
  ltb, arith, length, take, drop, slice, length-take, length-drop, take-take, drop-take, take-min,
  Bool-cases, take_all,
}
use zeno_plugin.Prelude.Text.{Text}
use zeno_plugin.Chunking.{Bytes, ChunkingConfig, cut_at, range_loop, iter_chunks_in_range}
use zeno_plugin.Chunking.Cover.{Covers, cut_at_bounds, window, window_pos, nonempty}

outside_empty :
    (file : Bytes) (start len : ℕ)
    → (leb len 0 || leb (length file) start) ≡ true
    → slice file start (start + len) ≡ []
outside_empty file start len e =
    sym (take-min (start + len - start) (drop start file))
    ∙ ap (λ k. take k (drop start file)) none_left
  where
    none_left : min_ℕ (start + len - start) (length (drop start file)) ≡ 0
    none_left = ground (arith, length-drop start file)

module _ (gear : ℕ → ℕ) (hash : Bytes → Text) (cfg : ChunkingConfig) (forced : List ℕ) where
  range_loop-Covers :
      (fuel base offset : ℕ) (rest : Bytes) (end : ℕ)
      → 0 < cfg.max
      → end - offset ≤ fuel
      → end - offset ≤ length rest
      → Covers hash
          (offset + base)
          (take (end - offset) rest)
          (range_loop gear hash cfg forced fuel base end offset rest)
  unfolding range_loop
  range_loop-Covers zero base offset rest end m f e =
      let none_left : end - offset ≡ 0 = omega arith in rw none_left refl
  range_loop-Covers (suc fuel) base offset rest end m f e = elim (Bool-cases (ltb offset end)) [
    | inr done ↦ let none_left : end - offset ≡ 0 = ground arith in rw (done, none_left) refl
    | inl more ↦
        let buf = window gear hash cfg forced (end - offset) rest in
        let ahead : 0 < end - offset = ground arith in
        let filled = window_pos gear hash cfg forced (end - offset) rest m ahead e in
        let bounds = cut_at_bounds gear hash cfg forced buf (offset + base) filled in
        let cut = cut_at gear hash cfg forced buf (offset + base) in
        let width = length-take (min_ℕ cfg.max (end - offset)) rest in
        let whole = length-take (end - offset) rest in
        let next =
          range_loop-Covers fuel base (offset + cut) (drop cut rest) end m (omega (arith, bounds.0))
            (omega (arith, length-drop cut rest)) in
        let start : offset + base + cut ≡ offset + cut + base = omega arith in
        let tail : drop cut (take (end - offset) rest)
            ≡ take (end - (offset + cut)) (drop cut rest) =
          drop-take cut (end - offset) rest ∙ ap (λ k. take k (drop cut rest)) (omega arith) in
        let bytes : take cut buf ≡ take cut (take (end - offset) rest) =
          take-take cut _ rest (omega (arith, width, bounds.1))
          ∙ sym (take-take cut _ rest (omega (arith, width, bounds.1))) in
        rw (more, nonempty gear hash cfg forced _ filled)
          (refl, omega (arith, whole, width, bounds.1), ap hash bytes, rw (start, tail) next)
  ]

  -- For every file, range and base: if chunks may hold at least one byte, the chunks of the range
  -- cover the bytes of the file in `[start, start + len)`, at offsets that begin at `start + base`.
  pub iter_chunks_in_range-Covers :
      (file : Bytes) (start len base : ℕ)
      → 0 < cfg.max
      → Covers hash
          (start + base)
          (slice file start (start + len))
          (iter_chunks_in_range gear hash cfg forced file start len base)
  unfolding iter_chunks_in_range
  iter_chunks_in_range-Covers file start len base m =
      elim (Bool-cases (leb len 0 || leb (length file) start)) [
        | inl outside ↦ rw outside (outside_empty file start len outside)
        | inr inside ↦ rw inside (
            rw (bytes start) (
              range_loop-Covers (length file) base start (drop start file)
                (min_ℕ (length file) (start + len)) m (omega arith)
                (omega (arith, length-drop start file))))
      ]
    where
      bytes :
          (start : ℕ)
          → slice file start (start + len)
            ≡ take (min_ℕ (length file) (start + len) - start) (drop start file)
      bytes start =
          sym (take-min (start + len - start) (drop start file))
          ∙ ap (λ k. take k (drop start file)) (omega (arith, length-drop start file))

-- The chunks of a whole buffer, at offsets that begin at `base`.
pub whole_range-Covers :
    (gear : ℕ → ℕ) (hash : Bytes → Text) (cfg : ChunkingConfig) (forced : List ℕ) (b : Bytes)
    (base : ℕ)
    → 0 < cfg.max
    → Covers hash base b (iter_chunks_in_range gear hash cfg forced b 0 (length b) base)
whole_range-Covers gear hash cfg forced b base room =
    let at : 0 + base ≡ base = omega arith in
    let all : slice b 0 (0 + length b) ≡ b = take_all (0 + length b - 0) b (omega arith) in
    subst (λ o. Covers hash o b (iter_chunks_in_range gear hash cfg forced b 0 (length b) base)) at
      (subst
        (λ r.
          Covers hash (0 + base) r (iter_chunks_in_range gear hash cfg forced b 0 (length b) base))
        all (iter_chunks_in_range-Covers gear hash cfg forced b 0 (length b) base room))
