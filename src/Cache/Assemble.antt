-- ===== src/Cache/Assemble.antt =====
-- zeno_client/cache.py, `_ensure_from_manifest`: a file is put together from the chunks and the
-- patches that its manifest lists.
use Prim.Native.Nat.{max}
use zeno_plugin.Prelude.{
  ℕ, Bool, true, false, Option, none, some, List, [], ◌∷◌, ◌==◌, if◌then◌else◌, length, is_empty,
}
use zeno_plugin.Prelude.Text.{Text, text_eq, strip, lower}
use zeno_plugin.Prelude.Result.{ok}
use zeno_plugin.Prelude.Int.{ℤ, pos}
use zeno_plugin.Prelude.Action.{pure, raise, ◌>>=◌, ◌>>◌}
use zeno_plugin.Chunking.{Bytes}
use zeno_plugin.Index.{FilePath}
use zeno_plugin.Manifest.Value.{is_nonzero}
use zeno_plugin.Manifest.{
  ManifestChunk, ManifestSegment, raw_chunk, zstd_dict_patch, ManifestV1, schema_v3,
  try_parse_manifest,
}
use zeno_plugin.Cache.Disk.{
  CacheState, corrupt, Method, manifest_parse_failed, missing_whole, chunk_size_mismatch,
  chunk_hash_mismatch, zstd_required, assembled_size_mismatch, assembled_hash_mismatch, write_file,
  read_file, append_file, replace_file, blob_path, assemble_path, chunk_path, chunk_tmp_path,
  manifest_path, manifest_tmp_path,
}
use zeno_plugin.Cache.{Env, lift, lock_path, check_size, check_hash, finish, hit_or}

-- `m.size_bytes if m.size_bytes else None`
abbrev pub known_size : ManifestV1 → Option ℤ
known_size m = if is_nonzero m.size_bytes then some m.size_bytes else none

-- `m.filename or whole`
abbrev pub out_name : ManifestV1 → Text
out_name m = if is_empty m.filename then m.whole_file_blake3 else m.filename

-- the segments that the assembly follows, if any
abbrev pub v3_segments : ManifestV1 → Option (List ManifestSegment)
v3_segments m = if text_eq m.schema schema_v3 then m.segments else none

module _ (env : Env) where
  unfoldable pub has_chunk : ManifestChunk → CacheState → Bool
  has_chunk ch s = elim (s.files (chunk_path ch.hash)) [
    | none ↦ false
    | some b ↦ if env.config.verify_size then length b == ch.size else true
  ]

  unfoldable pub fetch_chunk : ManifestChunk → Method (Unit {0})
  fetch_chunk ch = do
    body ← lift (env.client.get_blob ch.hash)
    write_file (chunk_tmp_path ch.hash) body
    check_size env (chunk_tmp_path ch.hash) body (some (pos ch.size)) chunk_size_mismatch ch.hash
    check_hash env (chunk_tmp_path ch.hash) body ch.hash chunk_hash_mismatch ch.hash
    replace_file (chunk_tmp_path ch.hash) (chunk_path ch.hash)

  unfoldable pub ensure_chunk : ManifestChunk → Method (Unit {0})
  ensure_chunk ch s = if has_chunk ch s then (ok tt, s) else fetch_chunk ch s

  unfoldable pub ensure_chunks : List ManifestChunk → Method (Unit {0})
  ensure_chunks [] = pure tt
  ensure_chunks (ch ∷ chs) = do ensure_chunk ch; ensure_chunks chs

  unfoldable pub copy_chunk : FilePath → Text → Method (Unit {0})
  copy_chunk out h = do body ← read_file (chunk_path h); append_file out body

  unfoldable pub write_patch : FilePath → Text → Text → Text → ℕ → Method (Unit {0})
  write_patch out mid dict_hash patch_hash uncompressed_size = elim env.decompress [
    | none ↦ raise (corrupt zstd_required mid)
    | some decompress ↦ do
      dbytes ← lift (env.client.get_blob_bytes dict_hash)
      pbytes ← lift (env.client.get_blob_bytes patch_hash)
      out_bytes ← lift (decompress dbytes pbytes (max 1 uncompressed_size))
      append_file out out_bytes
  ]

  unfoldable pub write_segment : FilePath → Text → ManifestSegment → Method (Unit {0})
  write_segment out mid (raw_chunk h size) = copy_chunk out h
  write_segment out mid
        (zstd_dict_patch parent range_start range_end dict_hash patch_hash patch_size
          uncompressed_size) =
      write_patch out mid dict_hash patch_hash uncompressed_size

  unfoldable pub write_segments : FilePath → Text → List ManifestSegment → Method (Unit {0})
  write_segments out mid [] = pure tt
  write_segments out mid (seg ∷ segs) = do write_segment out mid seg; write_segments out mid segs

  unfoldable pub write_chunks : FilePath → List ManifestChunk → Method (Unit {0})
  write_chunks out [] = pure tt
  write_chunks out (ch ∷ chs) = do copy_chunk out ch.hash; write_chunks out chs

  -- `with tmp_out.open("wb") as w`: an empty file, then each part behind the last
  unfoldable pub assemble : FilePath → Text → ManifestV1 → Method (Unit {0})
  assemble out mid m = do
    write_file out []
    elim (v3_segments m) [
      | some segs ↦ write_segments out mid segs
      | none ↦ write_chunks out m.chunks
    ]

  -- Kept for inspection; an OSError is ignored.
  unfoldable pub save_manifest : Text → Bytes → Method (Unit {0})
  save_manifest mid body s = elim (s.files (manifest_path mid)) [
    | none ↦
        (do
          write_file (manifest_tmp_path mid) body
          replace_file (manifest_tmp_path mid) (manifest_path mid))
          s
    | some _ ↦ (ok tt, s)
  ]

  unfoldable pub build_file : Text → ManifestV1 → Method FilePath
  build_file mid m =
      let whole = m.whole_file_blake3 in
      let tmp_out = assemble_path whole (out_name m) in
      do
        ensure_chunks m.chunks
        assemble tmp_out mid m
        body ← read_file tmp_out
        check_size env tmp_out body (known_size m) assembled_size_mismatch whole
        check_hash env tmp_out body whole assembled_hash_mismatch whole
        replace_file tmp_out (blob_path whole (out_name m))
        finish env whole (out_name m)

  unfoldable pub ensure_from_manifest : Text → Method FilePath
  ensure_from_manifest manifest_id =
      let mid = lower (strip manifest_id) in
      do
        body ← lift (env.client.get_blob_bytes mid)
        elim (try_parse_manifest env.python body) [
          | none ↦ raise (corrupt manifest_parse_failed mid)
          | some m ↦ if is_empty m.whole_file_blake3 then raise (corrupt missing_whole mid) else do
            save_manifest mid body
            hit_or env m.whole_file_blake3 (out_name m) (known_size m) do
              env.lock (lock_path m.whole_file_blake3)
              hit_or env m.whole_file_blake3 (out_name m) (known_size m) (build_file mid m)
        ]
