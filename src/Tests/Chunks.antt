-- ===== src/Tests/Chunks.antt =====
-- Chunking, manifests, canonical files and publishing, on small inputs.
use zeno_plugin.Prelude.{
  ℕ, ◌+◌, ◌*◌, ◌≡◌, refl, true, none, some, List, [], ◌∷◌, ◌++◌, arith, length, slice,
}
use zeno_plugin.Prelude.Text.{Text, codes, text_eq, lower, strip}
use zeno_plugin.Prelude.Result.{ok}
use zeno_plugin.Chunking.{
  Bytes, ChunkingConfig, Chunk, iter_chunks, iter_chunks_in_range, iter_loop, cut_at, find_cut,
}
use zeno_plugin.Chunking.Cover.{Covers, iter_chunks-Covers}
use zeno_plugin.Chunking.Sizes.{Sized, iter_chunks-Sized}
use zeno_plugin.Chunking.Range.{iter_chunks_in_range-Covers}
use zeno_plugin.Manifest.Value.{Python}
use zeno_plugin.Manifest.{payload_v2, build_manifest_v2, parse_manifest}
use zeno_plugin.Manifest.RoundTrip.{manifest_v2, parse_manifest-build_manifest_v2}
use zeno_plugin.Chunking.Resync.{hashes, resync}
use zeno_plugin.Canonical.{BlendAbi, zero_blocks, zero_loop}
use zeno_plugin.Canonical.Zeroed.{
  Alike, same, block, zero_blocks-Alike, zero_blocks-Idempotent, Loss, zero_blocks-Loss,
}

abbrev gear : ℕ → ℕ
gear b = b * 7

-- stands for BLAKE3
abbrev digest : Bytes → Text
digest b = 104 ∷ b

abbrev config : ChunkingConfig
config = record { algo = codes "fastcdc"; avg = 2; min = 1; max = 3 }

abbrev file : Bytes
file = 5 ∷ 9 ∷ 2 ∷ 7 ∷ 7 ∷ 1 ∷ 3 ∷ []

iter_chunks-Covers_example : Covers digest 0 file (iter_chunks gear digest config [] file)
iter_chunks-Covers_example = iter_chunks-Covers gear digest config [] file (omega arith)

iter_chunks-Sized_example : Sized config (length file) (iter_chunks gear digest config [] file)
iter_chunks-Sized_example =
    iter_chunks-Sized gear digest config [] file (omega arith) (omega arith) (omega arith)

iter_chunks_in_range-Covers_example :
    Covers digest
      (2 + 10)
      (slice file 2 (2 + 3))
      (iter_chunks_in_range gear digest config [] file 2 3 10)
iter_chunks_in_range-Covers_example =
    iter_chunks_in_range-Covers gear digest config [] file 2 3 10 (omega arith)

abbrev two_chunks : List Chunk
two_chunks =
    record { offset = 0; size = 4; content_hash = codes "aa" }
    ∷ record { offset = 4; size = 3; content_hash = codes "bb" }
    ∷ []

-- a JSON codec that knows one document
abbrev codec : Python
codec = record {
  loads = λ _. some (payload_v2 (codes "f") 7 (codes "cc") config two_chunks);
  dumps = λ _. [];
  render = λ _. [];
  int_of_text = λ _. none;
}

parse_manifest-build_manifest_v2_example :
    parse_manifest codec (build_manifest_v2 codec (codes "f") 7 (codes "cc") config two_chunks)
    ≡ ok (manifest_v2 (codes "f") 7 (codes "cc") config two_chunks)
unfolding lower strip
parse_manifest-build_manifest_v2_example =
    parse_manifest-build_manifest_v2 codec (codes "f") 7 (codes "cc") config two_chunks refl refl
      ((refl, refl), ((refl, refl), tt)) refl (omega arith) (omega arith) (omega arith)

-- every chunk is one byte
abbrev bytewise : ChunkingConfig
bytewise = record { algo = codes "fastcdc"; avg = 1; min = 1; max = 1 }

abbrev chunk : ℕ → ℕ → Chunk
chunk offset b = record { offset = offset; size = 1; content_hash = digest (b ∷ []) }

abbrev long_chunks : List Chunk
long_chunks = (chunk 0 1 ∷ chunk 1 2 ∷ []) ++ (chunk 2 8 ∷ chunk 3 9 ∷ [])

abbrev short_chunks : List Chunk
short_chunks = (chunk 0 4 ∷ []) ++ (chunk 1 8 ∷ chunk 2 9 ∷ [])

long_file : iter_chunks gear digest bytewise [] ((1 ∷ 2 ∷ []) ++ (8 ∷ 9 ∷ [])) ≡ long_chunks
unfolding iter_chunks iter_loop cut_at find_cut
long_file = refl

short_file : iter_chunks gear digest bytewise [] ((4 ∷ []) ++ (8 ∷ 9 ∷ [])) ≡ short_chunks
unfolding iter_chunks iter_loop cut_at find_cut
short_file = refl

resync_example : hashes (chunk 2 8 ∷ chunk 3 9 ∷ []) ≡ hashes (chunk 1 8 ∷ chunk 2 9 ∷ [])
resync_example =
    resync gear digest bytewise (omega arith) (1 ∷ 2 ∷ []) (4 ∷ []) (8 ∷ 9 ∷ [])
      (chunk 0 1 ∷ chunk 1 2 ∷ []) (chunk 2 8 ∷ chunk 3 9 ∷ []) (chunk 0 4 ∷ [])
      (chunk 1 8 ∷ chunk 2 9 ∷ []) (omega arith) long_file refl short_file refl

-- one block with a pointer of four bytes and one byte of payload, behind it a fragment
abbrev abi : BlendAbi
abi = record { ptr_size = 4; little_endian = true; header_end = 12 }

abbrev block_at : ℕ → Bytes
block_at address =
    codes "DATA"
    ++ (1 ∷ 0 ∷ 0 ∷ 0 ∷ [])
    ++ (address ∷ 17 ∷ 99 ∷ 3 ∷ [])
    ++ (2 ∷ 0 ∷ 0 ∷ 0 ∷ [])
    ++ (1 ∷ 0 ∷ 0 ∷ 0 ∷ [])
    ++ (77 ∷ [])
    ++ (5 ∷ 5 ∷ [])

moved : Alike abi (block_at 8) (block_at 200)
unfolding text_eq
moved =
    block {a = block_at 8} {b = block_at 200} (omega arith, refl) (omega arith, refl) refl refl same

zero_blocks-Alike_example : zero_blocks abi (block_at 8) ≡ zero_blocks abi (block_at 200)
zero_blocks-Alike_example = zero_blocks-Alike abi moved

zero_blocks-Loss_example : Loss abi (block_at 8)
zero_blocks-Loss_example = zero_blocks-Loss abi (block_at 8)

zero_blocks-Idempotent_example :
    zero_blocks abi (zero_blocks abi (block_at 8)) ≡ zero_blocks abi (block_at 8)
zero_blocks-Idempotent_example = zero_blocks-Idempotent abi (block_at 8)

-- The fragment behind the last block is gone.
fragment_lost : length (zero_blocks abi (block_at 8)) ≡ 21
unfolding zero_blocks zero_loop text_eq
fragment_lost = refl
