-- ===== src/Chunking.antt =====
-- zeno_client/chunking.py: content-defined chunking by a rolling gear hash. A file is the list of
-- its bytes. The gear table (256 constants) and the hash of a chunk come from the blake3 package,
-- so both are parameters. A loop takes as fuel the number of bytes that are left.
pub mod Cut
pub mod Cover
pub mod Sizes
pub mod Range
pub mod Resync
use Prim.Native.Nat.{min as min_ℕ, max as max_ℕ}
use zeno_plugin.Prelude.{
  ℕ, zero, suc, ◌+◌, ◌-◌, ◌*◌, ◌/◌, ◌%◌, ◌^◌, bit_and, Bool, true, false, ◌&&◌, ◌||◌, Option, none,
  some, List, [], ◌∷◌, map, ltb, leb, ◌==◌, if◌then◌else◌, length, take, drop, slice, is_empty,
  select,
}
use zeno_plugin.Prelude.Text.{Text, codes}

abbrev pub Bytes : Type 0
Bytes = List ℕ

pub record ChunkingConfig : Type 0 where
  pub algo : Text
  pub avg : ℕ
  pub min : ℕ
  pub max : ℕ

abbrev pub default_config : ChunkingConfig
default_config = record {
  algo = codes "fastcdc";
  avg = 1024 * 1024;
  min = 256 * 1024;
  max = 4 * 1024 * 1024;
}

pub record Chunk : Type 0 where
  pub offset : ℕ
  pub size : ℕ
  pub content_hash : Text

-- `int.bit_length`, for numbers below 2 ^ fuel.
bit_length_fuel : ℕ → ℕ → ℕ
bit_length_fuel zero n = 0
bit_length_fuel (suc f) n = let rest = bit_length_fuel f (n / 2) in if n == 0 then 0 else suc rest

unfoldable pub bit_length : ℕ → ℕ
unfolding bit_length_fuel
bit_length n = bit_length_fuel n n

-- `max(8, min(24, int(round(avg).bit_length() - 1)))`; at 0 both subtractions end below 8.
unfoldable pub mask_bits : ℕ → ℕ
mask_bits avg = max_ℕ 8 (min_ℕ 24 (bit_length avg - 1))

unfoldable pub mask_for_avg : ℕ → ℕ
unfolding mask_bits
mask_for_avg avg = 2 ^ mask_bits avg - 1

-- `((base << 1) | 1)`: the low bit of a doubled number is free.
unfoldable pub normalize_masks : ℕ → ℕ × ℕ
unfolding mask_for_avg
normalize_masks avg =
    let base_mask = mask_for_avg avg in ((base_mask * 2 + 1) % 2 ^ 64, base_mask % 2 ^ 64)

-- A run of the rolling hash ends at an anchor, or hands its hash on.
pub data Scan : Type 0 where
  anchor : ℕ → Scan
  carried : ℕ → Scan

-- `return i + 1` out of a loop, or what comes behind the loop.
abbrev pub or_else : Scan → (ℕ → ℕ) → ℕ
or_else (anchor c) next = c
or_else (carried h) next = next h

unfoldable pub minimum : List ℕ → Option ℕ
minimum [] = none
minimum (c ∷ cs) = elim (minimum cs) [ none ↦ some c | some d ↦ some (min_ℕ c d) ]

-- The forced candidates of `_find_cut`: the least in `[min_size, n]`, unless it is 0.
unfoldable pub forced_cut : ℕ → ℕ → List ℕ → Option ℕ
unfolding minimum
forced_cut min_size n forced = elim (minimum (select (λ c. leb min_size c && leb c n) forced)) [
  | none ↦ none
  | some c ↦ if ltb 0 c then some c else none
]

module _ (gear : ℕ → ℕ) where
  -- `h = ((h << 1) + _GEAR_TABLE[b]) & 0xFFFFFFFFFFFFFFFF`
  abbrev pub gear_step : ℕ → ℕ → ℕ
  gear_step h b = (h * 2 + gear b) % 2 ^ 64

  -- `for i in range(start, stop)` over the bytes of that range
  unfoldable pub scan : ℕ → ℕ → ℕ → Bytes → Scan
  scan mask i h [] = carried h
  scan mask i h (b ∷ bs) =
      let h' = gear_step h b in
      let rest = scan mask (suc i) h' bs in if bit_and h' mask == 0 then anchor (suc i) else rest

  unfoldable pub anchor_cut : Bytes → ℕ → ℕ → ℕ → ℕ → ℕ
  unfolding scan
  anchor_cut buf min_size mid mask_small mask_large =
      or_else (scan mask_small min_size 0 (slice buf min_size mid))
        λ h. or_else (scan mask_large mid h (drop mid buf)) λ _. length buf

  unfoldable pub find_cut : Bytes → ℕ → ℕ → ℕ → ℕ → List ℕ → ℕ
  unfolding anchor_cut forced_cut
  find_cut buf min_size max_size mask_small mask_large forced =
      let n = length buf in
      if leb n min_size then n else elim (forced_cut min_size n forced) [
        | some c ↦ c
        | none ↦ anchor_cut buf min_size (min_ℕ n ((min_size + max_size) / 2)) mask_small mask_large
      ]

  -- The cuts in `(start, start + len]`, relative to the start of the window.
  unfoldable pub window_cuts : ℕ → ℕ → List ℕ → List ℕ
  window_cuts start len forced =
      map (λ fc. fc - start) (select (λ fc. ltb start fc && leb fc (start + len)) forced)

  module _ (hash : Bytes → Text) (cfg : ChunkingConfig) (forced : List ℕ) where
    unfoldable pub cut_at : Bytes → ℕ → ℕ
    unfolding find_cut window_cuts normalize_masks
    cut_at buf window_start =
        let (mask_small, mask_large) = normalize_masks cfg.avg in
        find_cut buf cfg.min cfg.max mask_small mask_large
          (window_cuts window_start (length buf) forced)

    -- The loop of `iter_chunks`; `rest` is what the open file still holds, so the read, the seek
    -- back over the tail and the next read are a `take` and a `drop`.
    unfoldable pub iter_loop : ℕ → ℕ → ℕ → Bytes → List Chunk
    iter_loop zero size_total offset rest = []
    iter_loop (suc f) size_total offset rest =
        let buf = take (min_ℕ cfg.max (size_total - offset)) rest in
        let cut = cut_at buf offset in
        let chunk : Chunk = record {
          offset = offset;
          size = cut;
          content_hash = hash (take cut buf);
        } in
        let next = chunk ∷ iter_loop f size_total (offset + cut) (drop cut rest) in
        if ltb offset size_total then (if is_empty buf then [] else next) else []

    unfoldable pub iter_chunks : Bytes → List Chunk
    iter_chunks file =
        if length file == 0
        then record { offset = 0; size = 0; content_hash = hash [] } ∷ []
        else iter_loop (length file) (length file) 0 file

    -- The loop of `iter_chunks_in_range`, with absolute offsets.
    unfoldable pub range_loop : ℕ → ℕ → ℕ → ℕ → Bytes → List Chunk
    range_loop zero base_offset end offset rest = []
    range_loop (suc f) base_offset end offset rest =
        let buf = take (min_ℕ cfg.max (end - offset)) rest in
        let cut = cut_at buf (offset + base_offset) in
        let chunk : Chunk = record {
          offset = offset + base_offset;
          size = cut;
          content_hash = hash (take cut buf);
        } in
        let next = chunk ∷ range_loop f base_offset end (offset + cut) (drop cut rest) in
        if ltb offset end then (if is_empty buf then [] else next) else []

    unfoldable pub iter_chunks_in_range : Bytes → ℕ → ℕ → ℕ → List Chunk
    iter_chunks_in_range file start len base_offset =
        let size_total = length file in
        let end = min_ℕ size_total (start + len) in
        if leb len 0 || leb size_total start
        then []
        else range_loop (length file) base_offset end start (drop start file)
