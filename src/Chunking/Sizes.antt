-- ===== src/Chunking/Sizes.antt =====
-- Chunks are neither empty nor larger than allowed, and only the last may be short.
use Prim.Native.Nat.{min as min_ℕ}
use zeno_plugin.Prelude.{
  ℕ, zero, suc, ◌+◌, ◌-◌, ◌≤◌, ◌<◌, ◌≡◌, true, false, List, [], ◌∷◌, ltb, ◌==◌, arith, length, drop,
  length-take, length-drop,
}
use zeno_plugin.Prelude.Text.{Text}
use zeno_plugin.Chunking.{Bytes, ChunkingConfig, Chunk, cut_at, iter_loop, iter_chunks}
use zeno_plugin.Chunking.Cover.{cut_at_bounds, window, window_pos, nonempty}

-- The sizes of chunks that describe the last `left` bytes of a file.
abbrev pub Sized : ChunkingConfig → ℕ → List Chunk → Type 0
Sized cfg left [] = Unit
Sized cfg left (c ∷ cs) =
    (0 < c.size)
    × (c.size ≤ cfg.max)
    × (c.size < left → cfg.min ≤ c.size)
    × Sized cfg (left - c.size) cs

module _ (gear : ℕ → ℕ) (hash : Bytes → Text) (cfg : ChunkingConfig) (forced : List ℕ) where
  iter_loop-Sized :
      (fuel offset : ℕ) (rest : Bytes) (size_total : ℕ)
      → 0 < cfg.max
      → cfg.min ≤ cfg.max
      → size_total ≡ offset + length rest
      → Sized cfg (length rest) (iter_loop gear hash cfg forced fuel size_total offset rest)
  unfolding iter_loop
  iter_loop-Sized zero offset rest size_total m o e = tt
  iter_loop-Sized (suc fuel) offset [] size_total m o e =
      let done : ltb offset size_total ≡ false = ground arith in rw done tt
  iter_loop-Sized (suc fuel) offset (b ∷ bs) size_total m o e =
      let rest = b ∷ bs in
      let buf = window gear hash cfg forced (size_total - offset) rest in
      let more : ltb offset size_total ≡ true = ground arith in
      let filled =
        window_pos gear hash cfg forced (size_total - offset) rest m (omega arith) (omega arith) in
      let bounds = cut_at_bounds gear hash cfg forced buf offset filled in
      let cut = cut_at gear hash cfg forced buf offset in
      let width = length-take (min_ℕ cfg.max (size_total - offset)) rest in
      let least = bounds.2 o in
      let left = length-drop cut rest in
      rw (more, nonempty gear hash cfg forced _ filled)
        (
          bounds.0,
          omega (arith, width, bounds.1),
          (λ short. omega (arith, width, least)),
          rw (← left) (
              iter_loop-Sized fuel (offset + cut) (drop cut rest) size_total m o
                (omega (arith, left, width, bounds.1))),
        )

  -- With `0 < max` and `min ≤ max`: no chunk of a nonempty file is empty, none is larger than
  -- `max`, and each but the last has at least `min` bytes.
  pub iter_chunks-Sized :
      (file : Bytes)
      → 0 < cfg.max
      → cfg.min ≤ cfg.max
      → 0 < length file
      → Sized cfg (length file) (iter_chunks gear hash cfg forced file)
  unfolding iter_chunks
  iter_chunks-Sized [] m o h = absurd (omega arith)
  iter_chunks-Sized (b ∷ bs) m o h =
      let full : (length (b ∷ bs) == 0) ≡ false = ground arith in
      rw full (iter_loop-Sized (length (b ∷ bs)) 0 (b ∷ bs) (length (b ∷ bs)) m o (omega arith))
