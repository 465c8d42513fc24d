-- ===== src/Omni/Restored.antt =====
-- What the segments of a manifest say about the bytes that they stand for.
use zeno_plugin.Prelude.{
  ℕ, ◌+◌, ◌-◌, ◌≤◌, ◌≡◌, refl, sym, ap, ◌∙◌, Option, List, [], ◌∷◌, ◌++◌, arith, length, take, drop,
  slice, length-take, take-append-drop, drop-take, take-take,
}
use mathlib.Core.List.{append_assoc}
use zeno_plugin.Prelude.Text.{Text}
use zeno_plugin.Chunking.{Bytes, Chunk}
use zeno_plugin.Chunking.Cover.{Covers}
use zeno_plugin.Manifest.{ManifestSegment, raw_chunk, zstd_dict_patch}
use zeno_plugin.Entropy.{EntropySegment}
use zeno_plugin.Entropy.Tiles.{Tiles}
use zeno_plugin.Client.Stored.{drop-drop}
use zeno_plugin.Omni.Patch.{Zstd}
use zeno_plugin.Omni.Patch.Payloads.{Unpacks}

-- One segment stands for the bytes `x`: it names their hash, or the hashes of a dictionary and of
-- a patch that give them.
abbrev pub Piece : (Bytes → Text) → Option Zstd → ManifestSegment → Bytes → Type 0
Piece hash zstd (raw_chunk h n) x = (h ≡ hash x) × (n ≡ length x)
Piece hash zstd (zstd_dict_patch parent a b dict_hash patch_hash size n) x =
    (dict : Bytes) × (patch : Bytes) × (dict_hash ≡ hash dict)
    × (patch_hash ≡ hash patch)
    × (n ≡ length x)
    × Unpacks zstd dict patch x

-- The segments, in order, stand for all of `source`.
abbrev pub Restores : (Bytes → Text) → Option Zstd → List ManifestSegment → Bytes → Type 0
Restores hash zstd [] source = source ≡ []
Restores hash zstd (s ∷ ss) source =
    (x : Bytes) × (rest : Bytes) × (source ≡ x ++ rest)
    × Piece hash zstd s x
    × Restores hash zstd ss rest

abbrev pub raw_segments : List Chunk → List ManifestSegment
raw_segments [] = []
raw_segments (ch ∷ chs) = raw_chunk ch.content_hash ch.size ∷ raw_segments chs

abbrev pub segment_hashes : List ManifestSegment → List Text
segment_hashes [] = []
segment_hashes (raw_chunk h n ∷ ss) = h ∷ segment_hashes ss
segment_hashes (zstd_dict_patch parent a b dict_hash patch_hash size n ∷ ss) =
    dict_hash ∷ patch_hash ∷ segment_hashes ss

module _ (hash : Bytes → Text) (zstd : Option Zstd) where
  pub Restores-append :
      (ss ts : List ManifestSegment) (x y : Bytes)
      → Restores hash zstd ss x
      → Restores hash zstd ts y
      → Restores hash zstd (ss ++ ts) (x ++ y)
  Restores-append [] ts x y e t = rw e t
  Restores-append (s ∷ ss) ts x y (front, rest, e, p, r) t = (
    front,
    rest ++ y,
    ap (λ z. z ++ y) e ∙ append_assoc front rest y,
    p,
    Restores-append ss ts rest y r t,
  )

  pub Covers-Restores :
      (offset : ℕ) (source : Bytes) (chs : List Chunk)
      → Covers hash offset source chs
      → Restores hash zstd (raw_segments chs) source
  Covers-Restores offset source [] e = e
  Covers-Restores offset source (ch ∷ chs) (at, size, good, c) = (
    take ch.size source,
    drop ch.size source,
    sym (take-append-drop ch.size source),
    (good, omega (arith, length-take ch.size source)),
    Covers-Restores (offset + ch.size) (drop ch.size source) chs c,
  )

take_split : (m n : ℕ) (xs : Bytes) → m ≤ n → take n xs ≡ take m xs ++ take (n - m) (drop m xs)
take_split m n xs h =
    sym (take-append-drop m (take n xs))
    ∙ ap (λ z. z ++ drop m (take n xs)) (take-take m n xs h)
    ∙ ap (◌++◌ (take m xs)) (drop-take m n xs)

-- A stretch is its part before `b` with its part behind it.
pub slice_split :
    (a b c : ℕ) (xs : Bytes) → a ≤ b → b ≤ c → slice xs a c ≡ slice xs a b ++ slice xs b c
slice_split a b c xs h k =
    let left : (c - a) - (b - a) ≡ c - b = omega arith in
    let back : a + (b - a) ≡ b = omega arith in
    take_split (b - a) (c - a) (drop a xs) (omega arith)
    ∙ rw (left, drop-drop a (b - a) xs, back) refl

pub Tiles-le : {F : Type 0} (a b : ℕ) (segs : List (EntropySegment F)) → Tiles a b segs → a ≤ b
Tiles-le a b [] e = omega arith
Tiles-le a b (s ∷ ss) (at, pos, t) = omega (arith, Tiles-le s.end b ss t)
