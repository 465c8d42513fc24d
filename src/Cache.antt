-- ===== src/Cache.antt =====
-- zeno_client/cache.py: `LocalCache`. A method is an action on the files and the index. What the
-- methods take from elsewhere is a parameter: BLAKE3, the API client, zstandard, and `file_lock`,
-- which may time out, or return after other processes have changed the cache.
pub mod Disk
pub mod Assemble
pub mod Ensure
pub mod Eviction
pub mod Claims
pub mod Soundness
pub mod Checks
pub mod Assembled
pub mod Entries
pub mod Succeeds
pub mod Stale
use zeno_plugin.Prelude.{
  ℕ, zero, suc, ◌*◌, Bool, true, false, not, ◌&&◌, ◌||◌, Option, none, some, List, [], ◌∷◌, leb,
  ◌==◌, if◌then◌else◌, length, is_empty, max,
}
use zeno_plugin.Prelude.Text.{Text, codes, text_eq, strip, lower}
use zeno_plugin.Prelude.Result.{Result, ok, err}
use zeno_plugin.Prelude.Int.{ℤ, is_size}
use zeno_plugin.Prelude.Action.{Action, pure, raise, gets, ◌>>=◌, ◌>>◌}
use zeno_plugin.Chunking.{Bytes}
use zeno_plugin.Index.{
  FilePath, CacheEntry, Table, upsert_entry, delete_entry, total_size_bytes, eviction_candidates,
}
use zeno_plugin.Index
use zeno_plugin.Manifest.Value.{Python, is_nonzero}
use zeno_plugin.Manifest.{
  ManifestChunk, ManifestSegment, raw_chunk, zstd_dict_patch, ManifestV1, schema_v3,
  try_parse_manifest,
}
use Disk.{
  CacheState, corrupt, Failure, Method, missing_fields, size_mismatch, hash_mismatch,
  manifest_parse_failed, missing_whole, chunk_size_mismatch, chunk_hash_mismatch, zstd_required,
  assembled_size_mismatch, assembled_hash_mismatch, Corruption, write_file, remove_file, read_file,
  append_file, replace_file, blob_path, download_path, assemble_path, chunk_path, chunk_tmp_path,
  manifest_path, manifest_tmp_path,
}

pub record CacheConfig : Type 0 where
  pub max_bytes : ℕ
  pub verify_content_hash : Bool
  pub verify_sha256 : Option Bool
  pub verify_size : Bool

unfoldable pub should_verify_hash : CacheConfig → Bool
should_verify_hash c = elim c.verify_sha256 [ none ↦ c.verify_content_hash | some b ↦ b ]

-- What `client.resolve` answers; a missing text is empty. A size is null or a whole number: any other
-- value, on which `int` may raise, is left out.
pub record Resolved : Type 0 where
  pub content_id : Text
  pub filename : Text
  pub size : Option ℤ

-- The calls of `ZenoClient` that the cache makes. Nothing is assumed of the answers.
pub record Client : Type 0 where
  pub resolve : Text → Result Failure Resolved
  pub head_blob : Text → Result Failure (Option ℕ)
  pub get_blob : Text → Result Failure Bytes
  pub get_blob_bytes : Text → Result Failure Bytes
  -- `get_blob_bytes` the first time that a blob is asked for, which is to tell whether it is a
  -- manifest: a manifest is asked for once more, and the answers may differ
  pub first_blob_bytes : Text → Result Failure Bytes

pub record Env : Type 0 where
  pub config : CacheConfig
  pub hash : Bytes → Text
  pub python : Python
  pub client : Client
  -- dictionary, patch, greatest size of the output; `none` if zstandard is not installed
  pub decompress : Option (Bytes → Bytes → ℕ → Result Failure Bytes)
  pub lock : FilePath → Method (Unit {0})

abbrev pub lift : {A : Type 0} → Result Failure A → Method A
lift r s = (r, s)

-- A size that the caller knows, against a file's.
abbrev pub size_fits : CacheConfig → Option ℤ → ℕ → Bool
size_fits c none n = true
size_fits c (some i) n = if c.verify_size then is_size i n else true

abbrev pub lock_path : Text → FilePath
lock_path cid = cid ∷ codes ".lock" ∷ []

-- The rows and files after one round of the loop of `evict_if_needed`.
unfoldable pub evict_entry : CacheEntry → CacheState → CacheState
unfolding remove_file
evict_entry e s =
    let s' = (remove_file e.rel_path s).1 in
    record s' { entries = delete_entry e.content_id s'.entries }

-- `for e in candidates`; the variable `total` is the sum over the rows, before and after each round
unfoldable pub evict_batch : ℕ → Table → CacheState → CacheState
evict_batch max_bytes [] s = s
evict_batch max_bytes (e ∷ es) s =
    let next = evict_batch max_bytes es (evict_entry e s) in
    if leb (total_size_bytes s.entries) max_bytes then s else next

-- `while total > self.config.max_bytes`
unfoldable pub evict_loop : ℕ → ℕ → List Text → CacheState → CacheState
evict_loop zero max_bytes exclude s = s
evict_loop (suc fuel) max_bytes exclude s =
    let batch = eviction_candidates exclude 25 s.entries in
    let next = evict_loop fuel max_bytes exclude (evict_batch max_bytes batch s) in
    if leb (total_size_bytes s.entries) max_bytes then s else if is_empty batch then s else next

module _ (env : Env) where
  -- Each round of the loop deletes a row, so as many rounds as rows are enough.
  unfoldable pub evict_if_needed : List Text → Method (Unit {0})
  evict_if_needed exclude s =
      if leb (total_size_bytes s.entries) env.config.max_bytes
      then (ok tt, s)
      else if leb env.config.max_bytes 0
      then (ok tt, s)
      else (ok tt, evict_loop (length s.entries) env.config.max_bytes exclude s)

  unfoldable pub touch_index : Text → Text → FilePath → FilePath → Method (Unit {0})
  touch_index cid fname rel_path final_path s =
      let size : ℕ = elim (s.files final_path) [ none ↦ 0 | some b ↦ length b ] in
      (ok tt, record s { entries = upsert_entry cid fname rel_path size s.clock s.entries })

  -- `LocalCache.touch`
  unfoldable pub touch : Text → Method (Unit {0})
  touch content_id s =
      (ok tt, record s { entries = Index.touch (lower (strip content_id)) s.clock s.entries })

  unfoldable pub is_valid_hit : FilePath → Option ℤ → CacheState → Bool
  is_valid_hit path size s = elim (s.files path) [
    | none ↦ false
    | some b ↦ size_fits env.config size (length b)
  ]

  -- A fresh file at `tmp` is checked, and unlinked before the error is raised.
  unfoldable pub check_size : FilePath → Bytes → Option ℤ → Corruption → Text → Method (Unit {0})
  check_size tmp body size reason cid =
      if size_fits env.config size (length body)
      then pure tt
      else do remove_file tmp; raise (corrupt reason cid)

  unfoldable pub check_hash : FilePath → Bytes → Text → Corruption → Text → Method (Unit {0})
  check_hash tmp body expected reason cid =
      if not (should_verify_hash env.config) || text_eq (env.hash body) expected
      then pure tt
      else do remove_file tmp; raise (corrupt reason cid)

  -- The end of every method: the index is told, the cache is cut to size, the path is returned.
  unfoldable pub finish : Text → Text → Method FilePath
  finish cid fname = do
    touch_index cid fname (blob_path cid fname) (blob_path cid fname)
    evict_if_needed (cid ∷ [])
    pure (blob_path cid fname)

  unfoldable pub hit : Text → Text → Method FilePath
  hit cid fname = do
    touch_index cid fname (blob_path cid fname) (blob_path cid fname)
    pure (blob_path cid fname)

  -- `if self._is_valid_hit(...): ...; return final_path`, or what comes behind it
  unfoldable pub hit_or : Text → Text → Option ℤ → Method FilePath → Method FilePath
  hit_or cid fname size miss s =
      if is_valid_hit (blob_path cid fname) size s then hit cid fname s else miss s

  unfoldable pub store_bytes : Text → Text → Option ℤ → Bytes → Method FilePath
  store_bytes cid fname size body = do
    write_file (download_path cid fname) body
    check_size (download_path cid fname) body size size_mismatch cid
    check_hash (download_path cid fname) body cid hash_mismatch cid
    replace_file (download_path cid fname) (blob_path cid fname)
    finish cid fname

  unfoldable pub ensure_raw_blob_from_bytes : Text → Text → Option ℤ → Bytes → Method FilePath
  ensure_raw_blob_from_bytes content_id filename size body =
      let cid = lower (strip content_id) in
      let fname = strip filename in
      hit_or cid fname size
        do env.lock (lock_path cid); hit_or cid fname size (store_bytes cid fname size body)

  -- Unlike `store_bytes` this keeps a file that is there already.
  unfoldable pub publish_download : Text → Text → Method (Unit {0})
  publish_download cid fname s = elim (s.files (blob_path cid fname)) [
    | none ↦ replace_file (download_path cid fname) (blob_path cid fname) s
    | some _ ↦ remove_file (download_path cid fname) s
  ]

  unfoldable pub download : Text → Text → Option ℤ → Method FilePath
  download cid fname size = do
    remove_file (download_path cid fname)
    body ← lift (env.client.get_blob cid)
    write_file (download_path cid fname) body
    check_size (download_path cid fname) body size size_mismatch cid
    check_hash (download_path cid fname) body cid hash_mismatch cid
    publish_download cid fname
    finish cid fname
