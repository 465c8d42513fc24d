-- ===== src/Entropy.antt =====
-- zeno_client/entropy_segment.py: a file is taken apart into stretches of low, middle and high
-- entropy. Python's floating point numbers are a parameter: nothing is relied on but that its
-- operations return.
pub mod Tiles
use zeno_plugin.Prelude.{
  ℕ, zero, suc, ◌+◌, Bool, true, false, ◌&&◌, List, [], ◌∷◌, ◌==◌, if◌then◌else◌, length, take,
  drop, is_empty, ltb,
}
use zeno_plugin.Chunking.{Bytes}

pub record FloatOps (F : Type 0) : Type 0 where
  pub of_nat : ℕ → F
  pub add : F → F → F
  pub sub : F → F → F
  pub mul : F → F → F
  pub div : F → F → F
  pub log2 : F → F
  pub at_most : F → F → Bool

pub data SegmentMode : Type 0 where
  low high mid : SegmentMode

abbrev pub same_mode : SegmentMode → SegmentMode → Bool
same_mode low low = true
same_mode high high = true
same_mode mid mid = true
same_mode _ _ = false

pub record EntropyConfig (F : Type 0) : Type 0 where
  pub window_size : ℕ
  pub low_threshold : F
  pub high_threshold : F

pub record EntropySegment (F : Type 0) : Type 0 where
  pub start : ℕ
  pub end : ℕ
  pub mode : SegmentMode
  pub entropy : F

-- `counts[b]` at the end of the first loop
abbrev pub count : ℕ → Bytes → ℕ
count b [] = 0
count b (x ∷ xs) = if x == b then suc (count b xs) else count b xs

module _ {F : Type 0} (ops : FloatOps F) where
  -- the second loop, over the next `n` byte values from `b`
  abbrev pub sum_entropy : ℕ → ℕ → Bytes → F → F
  sum_entropy zero b content h = h
  sum_entropy (suc n) b content h =
      let p = ops.div (ops.of_nat (count b content)) (ops.of_nat (length content)) in
      let next = ops.sub h (ops.mul p (ops.log2 p)) in
      sum_entropy n (suc b) content (if count b content == 0 then h else next)

  unfoldable pub shannon_entropy : Bytes → F
  shannon_entropy content =
      if is_empty content then ops.of_nat 0 else sum_entropy 256 0 content (ops.of_nat 0)

  unfoldable pub classify_entropy : F → EntropyConfig F → SegmentMode
  classify_entropy h cfg =
      if ops.at_most h cfg.low_threshold
      then low
      else if ops.at_most cfg.high_threshold h
      then high
      else mid

  abbrev pub merged : EntropySegment F → EntropySegment F → EntropySegment F
  merged prev seg = record {
    start = prev.start;
    end = seg.end;
    mode = prev.mode;
    entropy = ops.div (ops.add prev.entropy seg.entropy) (ops.of_nat 2);
  }

  -- The loop, with the last segment of `out` in hand.
  unfoldable pub merge_from : EntropySegment F → List (EntropySegment F) → List (EntropySegment F)
  merge_from prev [] = prev ∷ []
  merge_from prev (seg ∷ rest) =
      let joined = merge_from (merged prev seg) rest in
      let apart = prev ∷ merge_from seg rest in
      if same_mode prev.mode seg.mode && (prev.end == seg.start) then joined else apart

  unfoldable pub merge_adjacent_segments : List (EntropySegment F) → List (EntropySegment F)
  merge_adjacent_segments [] = []
  merge_adjacent_segments (seg ∷ rest) = merge_from seg rest

  -- The loop over the windows; each takes a byte at least.
  unfoldable pub scan_loop : ℕ → EntropyConfig F → ℕ → Bytes → List (EntropySegment F)
  scan_loop zero cfg offset rest = []
  scan_loop (suc fuel) cfg offset rest =
      let buf = take cfg.window_size rest in
      let h = shannon_entropy buf in
      let seg : EntropySegment F = record {
        start = offset;
        end = offset + length buf;
        mode = classify_entropy h cfg;
        entropy = h;
      } in
      let next = seg ∷ scan_loop fuel cfg (offset + length buf) (drop cfg.window_size rest) in
      if is_empty buf then [] else next

  unfoldable pub scan_entropy_segments : EntropyConfig F → Bytes → List (EntropySegment F)
  scan_entropy_segments cfg file = merge_adjacent_segments (scan_loop (length file) cfg 0 file)
