-- ===== src/Cache/Ensure.antt =====
-- zeno_client/cache.py: `ensure_cached` and `ensure_uri_cached`, the entries to the cache.
use zeno_plugin.Prelude.{
  ℕ, ◌*◌, Bool, true, false, ◌||◌, Option, none, some, leb, if◌then◌else◌, is_empty,
}
use zeno_plugin.Prelude.Text.{Text, codes, strip, lower}
use zeno_plugin.Prelude.Result.{Result, ok}
use zeno_plugin.Prelude.Int.{ℤ}
use zeno_plugin.Prelude.Action.{raise, ◌>>=◌, ◌>>◌}
use zeno_plugin.Index.{FilePath}
use zeno_plugin.Manifest.{ManifestV1, try_parse_manifest}
use zeno_plugin.Cache.Disk.{Failure, corrupt, missing_fields, Method}
use zeno_plugin.Cache.{Env, lift, lock_path, hit_or, download, ensure_raw_blob_from_bytes}
use zeno_plugin.Cache.Assemble.{ensure_from_manifest}

-- Blobs of at most 256 KiB may be manifests.
abbrev pub is_small : Result Failure (Option ℕ) → Bool
is_small (ok (some n)) = leb n (256 * 1024)
is_small _ = false

abbrev pub names_whole_file : Option ManifestV1 → Bool
names_whole_file none = false
names_whole_file (some m) = if is_empty m.whole_file_blake3 then false else true

module _ (env : Env) where
  unfoldable pub fetch_large : Text → Text → Option ℤ → Method FilePath
  fetch_large cid fname size =
      hit_or env cid fname size
        do env.lock (lock_path cid); hit_or env cid fname size (download env cid fname size)

  unfoldable pub fetch_small : Text → Text → Option ℤ → Method FilePath
  fetch_small cid fname size = do
    body ← lift (env.client.first_blob_bytes cid)
    if names_whole_file (try_parse_manifest env.python body)
        then ensure_from_manifest env cid
        else ensure_raw_blob_from_bytes env cid fname size body

  unfoldable pub ensure_cached : Text → Text → Option ℤ → Method FilePath
  ensure_cached content_id filename size =
      let cid = lower (strip content_id) in
      let fname = strip filename in
      hit_or env cid fname size (
        if is_small (env.client.head_blob cid)
        then fetch_small cid fname size
        else fetch_large cid fname size)

  unfoldable pub ensure_uri_cached : Text → Method FilePath
  ensure_uri_cached uri = do
    r ← lift (env.client.resolve uri)
    let content_id = lower (strip r.content_id)
    let filename = strip r.filename
    if is_empty content_id || is_empty filename
        then raise
            (corrupt missing_fields (if is_empty content_id then codes "unknown" else content_id))
        else ensure_cached content_id filename r.size
