-- ===== src/Tests/Stretches.antt =====
-- Entropy segments, with whole numbers in place of floats.
use zeno_plugin.Prelude.{ℕ, ◌+◌, ◌-◌, ◌*◌, ◌/◌, ◌≡◌, refl, List, [], ◌∷◌, arith, leb, length}
use zeno_plugin.Chunking.{Bytes}
use zeno_plugin.Entropy.{
  FloatOps, EntropyConfig, EntropySegment, low, high, merge_adjacent_segments,
  scan_entropy_segments,
}
use zeno_plugin.Entropy.Tiles.{
  Tiles, Alternate, mode_at, merge_adjacent_segments-Tiles, scan_entropy_segments-Tiles,
}

abbrev pub whole_numbers : FloatOps ℕ
whole_numbers = record {
  of_nat = λ n. n;
  add = λ m n. m + n;
  sub = λ m n. m - n;
  mul = λ m n. m * n;
  div = λ m n. m / n;
  log2 = λ n. n;
  at_most = leb;
}

abbrev pub settings : EntropyConfig ℕ
settings = record { window_size = 2; low_threshold = 0; high_threshold = 1 }

abbrev pub content : Bytes
content = 7 ∷ 7 ∷ 7 ∷ 7 ∷ 1 ∷ []

abbrev stretches : List (EntropySegment ℕ)
stretches =
    record { start = 0; end = 2; mode = low; entropy = 0 }
    ∷ record { start = 2; end = 5; mode = low; entropy = 4 }
    ∷ record { start = 5; end = 6; mode = high; entropy = 9 }
    ∷ []

scan_entropy_segments-Tiles_example :
    Tiles 0 (length content) (scan_entropy_segments whole_numbers settings content)
    × Alternate (scan_entropy_segments whole_numbers settings content)
scan_entropy_segments-Tiles_example =
    scan_entropy_segments-Tiles whole_numbers settings content (omega arith)

merge_adjacent_segments-Tiles_example :
    Tiles 0 6 (merge_adjacent_segments whole_numbers stretches)
    × Alternate (merge_adjacent_segments whole_numbers stretches)
    × ((p : ℕ) → mode_at p (merge_adjacent_segments whole_numbers stretches) ≡ mode_at p stretches)
merge_adjacent_segments-Tiles_example =
    merge_adjacent_segments-Tiles whole_numbers stretches 0 6
      (refl, omega arith, (refl, omega arith, (refl, omega arith, refl)))
