-- ===== src/Chunking/Cover.antt =====
-- The chunks of a file, put one behind the other, are the file.
use Prim.Native.Nat.{min as min_ℕ}
use zeno_plugin.Prelude.{
  ℕ, zero, suc, ◌+◌, ◌-◌, ◌≤◌, ◌<◌, ◌≡◌, refl, ap, true, false, List, [], ◌∷◌, ltb, ◌==◌, arith,
  length, take, drop, is_empty, length-take, length-drop, take-take,
}
use zeno_plugin.Prelude.Text.{Text}
use zeno_plugin.Chunking.{Bytes, ChunkingConfig, Chunk, cut_at, iter_loop, iter_chunks}
use zeno_plugin.Chunking.Cut.{find_cut_bounds}

-- `chunks` describe the bytes `rest` that stand at `offset` of a file: each starts where the one
-- before it ends, its hash is that of its bytes, and nothing is left behind the last.
abbrev pub Covers : (Bytes → Text) → ℕ → Bytes → List Chunk → Type 0
Covers hash offset rest [] = rest ≡ []
Covers hash offset rest (c ∷ cs) =
    (c.offset ≡ offset)
    × (c.size ≤ length rest)
    × (c.content_hash ≡ hash (take c.size rest))
    × Covers hash (offset + c.size) (drop c.size rest) cs

module _ (gear : ℕ → ℕ) (hash : Bytes → Text) (cfg : ChunkingConfig) (forced : List ℕ) where
  pub cut_at_bounds :
      (buf : Bytes) (start : ℕ)
      → 0 < length buf
      → (0 < cut_at gear hash cfg forced buf start)
        × (cut_at gear hash cfg forced buf start ≤ length buf)
        × (cfg.min ≤ cfg.max → min_ℕ cfg.min (length buf) ≤ cut_at gear hash cfg forced buf start)
  unfolding cut_at
  cut_at_bounds buf start h = find_cut_bounds gear buf cfg.min cfg.max _ _ _ h

  -- the window that one round reads
  abbrev pub window : ℕ → Bytes → Bytes
  window left rest = take (min_ℕ cfg.max left) rest

  pub window_pos :
      (left : ℕ) (rest : Bytes)
      → 0 < cfg.max
      → 0 < left
      → left ≤ length rest
      → 0 < length (window left rest)
  window_pos left rest a b c = omega (arith, length-take (min_ℕ cfg.max left) rest)

  pub window-le : (left : ℕ) (rest : Bytes) → length (window left rest) ≤ length rest
  window-le left rest = omega (arith, length-take (min_ℕ cfg.max left) rest)

  pub nonempty : (bs : Bytes) → 0 < length bs → is_empty bs ≡ false
  nonempty [] h = absurd (omega arith)
  nonempty (b ∷ bs) h = refl

  -- one round of the loop, where bytes are left
  pub iter_loop_step :
      (fuel offset : ℕ) (rest : Bytes) (size_total : ℕ)
      → 0 < cfg.max
      → 0 < length rest
      → size_total ≡ offset + length rest
      → let buf = window (length rest) rest in
        let cut = cut_at gear hash cfg forced buf offset in
        iter_loop gear hash cfg forced (suc fuel) size_total offset rest
        ≡ record { offset = offset; size = cut; content_hash = hash (take cut rest) }
          ∷ iter_loop gear hash cfg forced fuel size_total (offset + cut) (drop cut rest)
  unfolding iter_loop
  iter_loop_step fuel offset rest size_total m h e =
      let left : size_total - offset ≡ length rest = omega arith in
      let more : ltb offset size_total ≡ true = ground arith in
      let buf = window (length rest) rest in
      let filled = window_pos (length rest) rest m h (omega arith) in
      let bounds = cut_at_bounds buf offset filled in
      let bytes =
        take-take (cut_at gear hash cfg forced buf offset) (min_ℕ cfg.max (length rest)) rest
          (omega (arith, length-take (min_ℕ cfg.max (length rest)) rest, bounds.1)) in
      rw (more, left, nonempty buf filled, bytes) refl

  iter_loop-Covers :
      (fuel offset : ℕ) (rest : Bytes) (size_total : ℕ)
      → 0 < cfg.max
      → length rest ≤ fuel
      → size_total ≡ offset + length rest
      → Covers hash offset rest (iter_loop gear hash cfg forced fuel size_total offset rest)
  unfolding iter_loop
  iter_loop-Covers zero offset [] size_total m f e = refl
  iter_loop-Covers zero offset (b ∷ rest) size_total m f e = absurd (omega arith)
  iter_loop-Covers (suc fuel) offset [] size_total m f e =
      let done : ltb offset size_total ≡ false = ground arith in rw done refl
  iter_loop-Covers (suc fuel) offset (b ∷ bs) size_total m f e =
      let rest = b ∷ bs in
      let buf = window (size_total - offset) rest in
      let more : ltb offset size_total ≡ true = ground arith in
      let filled = window_pos (size_total - offset) rest m (omega arith) (omega arith) in
      let bounds = cut_at_bounds buf offset filled in
      let cut = cut_at gear hash cfg forced buf offset in
      let width = length-take (min_ℕ cfg.max (size_total - offset)) rest in
      let left = length-drop cut rest in
      rw (more, nonempty _ filled)
        (
          refl,
          omega (arith, width, bounds.1),
          ap hash (take-take cut _ rest (omega (arith, width, bounds.1))),
          iter_loop-Covers fuel (offset + cut) (drop cut rest) size_total m
              (omega (arith, left, bounds.0, bounds.1)) (omega (arith, left, width, bounds.1)),
        )

  -- For every file, whatever the least and the average size and the forced cuts are: if chunks may
  -- hold at least one byte, the chunks of the file cover it. The first starts at 0 and each other
  -- where the one before it ends, nothing is left behind the last, and each has the hash of its
  -- bytes.
  pub iter_chunks-Covers :
      (file : Bytes) → 0 < cfg.max → Covers hash 0 file (iter_chunks gear hash cfg forced file)
  unfolding iter_chunks
  iter_chunks-Covers [] m = (refl, omega arith, refl, refl)
  iter_chunks-Covers (b ∷ bs) m =
      let full : (length (b ∷ bs) == 0) ≡ false = ground arith in
      rw full (
        iter_loop-Covers (length (b ∷ bs)) 0 (b ∷ bs) (length (b ∷ bs)) m (omega arith)
          (omega arith))
