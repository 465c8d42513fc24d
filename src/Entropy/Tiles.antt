-- ===== src/Entropy/Tiles.antt =====
-- The segments tile the file, and merging them changes the mode of no byte.
use zeno_plugin.Prelude.{
  ℕ, zero, suc, ◌+◌, ◌≤◌, ◌<◌, ◌≡◌, refl, ap, ◌∙◌, inl, inr, true, false, ◌&&◌, Option, none, some,
  List, [], ◌∷◌, arith, ◌==◌, ==_iff, if◌then◌else◌, length, take, drop, is_empty, ltb, length-take,
  length-drop, take-nil, Bool-cases,
}
use zeno_plugin.Chunking.{Bytes}
use zeno_plugin.Entropy.{
  FloatOps, SegmentMode, low, high, mid, same_mode, EntropyConfig, EntropySegment, merged,
  merge_from, merge_adjacent_segments, scan_loop, scan_entropy_segments,
}

module _ {F : Type 0} where
  -- None is empty, each starts where the one before it ends, and they reach from `a` to `b`.
  abbrev pub Tiles : ℕ → ℕ → List (EntropySegment F) → Type 0
  Tiles a b [] = a ≡ b
  Tiles a b (s ∷ ss) = (s.start ≡ a) × (a < s.end) × Tiles s.end b ss

  -- Neighbours have different modes, the first another than `m`.
  abbrev pub After : SegmentMode → List (EntropySegment F) → Type 0
  After m [] = Unit
  After m (s ∷ ss) = (same_mode m s.mode ≡ false) × After s.mode ss

  abbrev pub Alternate : List (EntropySegment F) → Type 0
  Alternate [] = Unit
  Alternate (s ∷ ss) = After s.mode ss

  -- the mode of the byte at a position, in segments that begin before it
  abbrev pub mode_at : ℕ → List (EntropySegment F) → Option SegmentMode
  mode_at p [] = none
  mode_at p (s ∷ ss) = if ltb p s.end then some s.mode else mode_at p ss

module _ {F : Type 0} (ops : FloatOps F) where
  same_mode_eq : (m n : SegmentMode) → same_mode m n ≡ true → m ≡ n
  same_mode_eq low low h = refl
  same_mode_eq high high h = refl
  same_mode_eq mid mid h = refl
  same_mode_eq low high h = absurd cc
  same_mode_eq low mid h = absurd cc
  same_mode_eq high low h = absurd cc
  same_mode_eq high mid h = absurd cc
  same_mode_eq mid low h = absurd cc
  same_mode_eq mid high h = absurd cc

  merge_from-Tiles :
      (prev : EntropySegment F) (rest : List (EntropySegment F)) (a b : ℕ)
      → Tiles a b (prev ∷ rest)
      → Tiles a b (merge_from ops prev rest)
  unfolding merge_from
  merge_from-Tiles prev [] a b t = t
  merge_from-Tiles prev (seg ∷ rest) a b (at, size, (at', size', t)) =
      elim (Bool-cases (same_mode prev.mode seg.mode && (prev.end == seg.start))) [
        | inl join ↦ rw join (merge_from-Tiles (merged ops prev seg) rest a b (at, omega arith, t))
        | inr apart ↦ rw apart (at, size, merge_from-Tiles seg rest prev.end b (at', size', t))
      ]

  merge_from-mode_at :
      (p : ℕ) (prev : EntropySegment F) (rest : List (EntropySegment F)) (a b : ℕ)
      → Tiles a b (prev ∷ rest)
      → mode_at p (merge_from ops prev rest) ≡ mode_at p (prev ∷ rest)
  unfolding merge_from
  merge_from-mode_at p prev [] a b t = refl
  merge_from-mode_at p prev (seg ∷ rest) a b (at, size, (at', size', t)) =
      elim (Bool-cases (same_mode prev.mode seg.mode && (prev.end == seg.start))) [
        | inl join ↦
            let same : prev.mode ≡ seg.mode =
              same_mode_eq prev.mode seg.mode (ground (arith, join)) in
            rw join (
              merge_from-mode_at p (merged ops prev seg) rest a b (at, omega arith, t)
              ∙ ground (arith, same, size'))
        | inr apart ↦ rw apart (
            ap (λ (o : Option SegmentMode). if ltb p prev.end then some prev.mode else o)
              (merge_from-mode_at p seg rest prev.end b (at', size', t)))
      ]

  -- segments that touch are apart only where their modes differ
  differ :
      (prev seg : EntropySegment F)
      → seg.start ≡ prev.end
      → (same_mode prev.mode seg.mode && (prev.end == seg.start)) ≡ false
      → same_mode prev.mode seg.mode ≡ false
  differ prev seg touch apart = ground (arith, touch, apart, ==_iff prev.end seg.start)

  merge_from-After :
      (m : SegmentMode) (prev : EntropySegment F) (rest : List (EntropySegment F)) (a b : ℕ)
      → Tiles a b (prev ∷ rest)
      → same_mode m prev.mode ≡ false
      → After m (merge_from ops prev rest)
  unfolding merge_from
  merge_from-After m prev [] a b t h = (h, tt)
  merge_from-After m prev (seg ∷ rest) a b (at, size, (at', size', t)) h =
      elim (Bool-cases (same_mode prev.mode seg.mode && (prev.end == seg.start))) [
        | inl join ↦
            rw join (merge_from-After m (merged ops prev seg) rest a b (at, omega arith, t) h)
        | inr apart ↦ rw apart (
          h,
          merge_from-After prev.mode seg rest prev.end b (at', size', t)
              (differ prev seg at' apart),
        )
      ]

  merge_from-Alternate :
      (prev : EntropySegment F) (rest : List (EntropySegment F)) (a b : ℕ)
      → Tiles a b (prev ∷ rest)
      → Alternate (merge_from ops prev rest)
  unfolding merge_from
  merge_from-Alternate prev [] a b t = tt
  merge_from-Alternate prev (seg ∷ rest) a b (at, size, (at', size', t)) =
      elim (Bool-cases (same_mode prev.mode seg.mode && (prev.end == seg.start))) [
        | inl join ↦
            rw join (merge_from-Alternate (merged ops prev seg) rest a b (at, omega arith, t))
        | inr apart ↦ rw apart (
            merge_from-After prev.mode seg rest prev.end b (at', size', t)
              (differ prev seg at' apart))
      ]

  -- Segments that tile a stretch still tile it when neighbours are merged; the modes then alternate,
  -- and every byte keeps its mode.
  pub merge_adjacent_segments-Tiles :
      (segs : List (EntropySegment F)) (a b : ℕ)
      → Tiles a b segs
      → Tiles a b (merge_adjacent_segments ops segs)
        × Alternate (merge_adjacent_segments ops segs)
        × ((p : ℕ) → mode_at p (merge_adjacent_segments ops segs) ≡ mode_at p segs)
  unfolding merge_adjacent_segments
  merge_adjacent_segments-Tiles [] a b t = (t, tt, λ p. refl)
  merge_adjacent_segments-Tiles (seg ∷ rest) a b t = (
    merge_from-Tiles seg rest a b t,
    merge_from-Alternate seg rest a b t,
    λ p. merge_from-mode_at p seg rest a b t,
  )

  not_empty : (xs : Bytes) → 0 < length xs → is_empty xs ≡ false
  not_empty [] h = absurd (omega arith)
  not_empty (x ∷ xs) h = refl

  scan_loop-Tiles :
      (fuel : ℕ) (cfg : EntropyConfig F) (offset : ℕ) (rest : Bytes) (end : ℕ)
      → 0 < cfg.window_size
      → length rest ≤ fuel
      → end ≡ offset + length rest
      → Tiles offset end (scan_loop ops fuel cfg offset rest)
  unfolding scan_loop
  scan_loop-Tiles zero cfg offset [] end w h e = omega (arith, e)
  scan_loop-Tiles zero cfg offset (x ∷ rest) end w h e = absurd (omega arith)
  scan_loop-Tiles (suc fuel) cfg offset [] end w h e =
      rw (take-nil {A = ℕ} cfg.window_size) (omega (arith, e))
  scan_loop-Tiles (suc fuel) cfg offset (x ∷ xs) end w h e =
      let rest = x ∷ xs in
      let width = length-take cfg.window_size rest in
      let left = length-drop cfg.window_size rest in
      let full : is_empty (take cfg.window_size rest) ≡ false =
        not_empty (take cfg.window_size rest) (omega (arith, width)) in
      rw full (
        refl,
        omega (arith, width),
        scan_loop-Tiles fuel cfg (offset + length (take cfg.window_size rest))
            (drop cfg.window_size rest) end w (omega (arith, left)) (omega (arith, width, left, e)),
      )

  -- With windows of at least a byte, the segments of a file tile it, from its start to its end, and
  -- neighbours have different modes.
  pub scan_entropy_segments-Tiles :
      (cfg : EntropyConfig F) (file : Bytes)
      → 0 < cfg.window_size
      → Tiles 0 (length file) (scan_entropy_segments ops cfg file)
        × Alternate (scan_entropy_segments ops cfg file)
  unfolding scan_entropy_segments
  scan_entropy_segments-Tiles cfg file w =
      let t =
        scan_loop-Tiles (length file) cfg 0 file (length file) w (omega arith) (omega arith) in
      let m =
        merge_adjacent_segments-Tiles (scan_loop ops (length file) cfg 0 file) 0 (length file) t in
      (m.0, m.1)
