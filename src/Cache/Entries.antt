-- ===== src/Cache/Entries.antt =====
-- The entries of `LocalCache`: what `ensure_uri_cached` promises, whatever the client answers.
use mathlib.Core.Path.{subst}
use zeno_plugin.Prelude.{◌≡◌, refl, sym, true, ◌||◌, Option, none, some, is_empty, if◌then◌else◌}
use zeno_plugin.Prelude.Text.{Text, lower, strip, codes}
use zeno_plugin.Prelude.Result.{Result, ok}
use zeno_plugin.Prelude.Int.{ℤ}
use zeno_plugin.Prelude.Action.{
  raise, ◌>>◌, Outcome, Triple, Triple-post, Triple-bind, Triple-if, Triple-weaken,
}
use zeno_plugin.Chunking.{Bytes}
use zeno_plugin.Index.{FilePath}
use zeno_plugin.Cache.Disk.{CacheState, Failure, corrupt, Method, write_file, replace_file}
use zeno_plugin.Cache.{
  Env, Resolved, should_verify_hash, lock_path, hit_or, ensure_raw_blob_from_bytes,
}
use zeno_plugin.Cache.Claims.{Sound, write_file-Sound, replace_file-Sound}
use zeno_plugin.Manifest.{ManifestV1, try_parse_manifest}
use zeno_plugin.Cache.Assemble.{
  known_size, out_name, save_manifest, build_file, ensure_from_manifest,
}
use zeno_plugin.Cache.Disk.{
  manifest_path, manifest_tmp_path, missing_fields, manifest_parse_failed, missing_whole,
}
use zeno_plugin.Cache.Claims.{manifest_path_unclaimed}
use zeno_plugin.Cache.Soundness.{Present, hit_or-Sound}
use zeno_plugin.Cache.Checks.{lift-Sound, no_claim}
use zeno_plugin.Cache.Ensure.{
  is_small, names_whole_file, fetch_large, fetch_small, ensure_cached, ensure_uri_cached,
}
use zeno_plugin.Cache.Checks.{store_bytes-Sound, download-Sound}
use zeno_plugin.Cache.Assembled.{Keeps, build_file-Sound}

-- `file_lock` may fail, or wait while other processes work, and they keep the cache sound too.
abbrev pub SafeLock : Env → Type 0
SafeLock env = (p : FilePath) → Keeps env (env.lock p)

abbrev pub Ensures : Env → Method FilePath → Type 0
Ensures env m = Triple (Sound env.hash) (Sound env.hash) Present m

module _ (env : Env) (on : should_verify_hash env.config ≡ true) (locks : SafeLock env) where
  -- a hit, or a hit behind the lock, or the work itself
  abbrev guarded : Text → Text → Option ℤ → Method FilePath → Method FilePath
  guarded cid fname size work =
      hit_or env cid fname size (env.lock (lock_path cid) >> hit_or env cid fname size work)

  guarded-Sound :
      (cid fname : Text) (size : Option ℤ) (work : Method FilePath)
      → Ensures env work
      → Ensures env (guarded cid fname size work)
  guarded-Sound cid fname size work t = hit_or-Sound env cid fname size _ (
      Triple-bind (locks (lock_path cid))
        λ _. Triple-weaken (λ s h. h.0) (hit_or-Sound env cid fname size work t))

  ensure_raw_blob_from_bytes-Sound :
      (content_id filename : Text) (size : Option ℤ) (body : Bytes)
      → Ensures env (ensure_raw_blob_from_bytes env content_id filename size body)
  unfolding ensure_raw_blob_from_bytes
  ensure_raw_blob_from_bytes-Sound content_id filename size body =
      let cid = lower (strip content_id) in
      let fname = strip filename in
      guarded-Sound cid fname size _ (store_bytes-Sound env on cid fname size body)

  save_manifest-Sound : (mid : Text) (body : Bytes) → Keeps env (save_manifest env mid body)
  unfolding save_manifest
  save_manifest-Sound mid body = record {
    run = λ s sound. saves s sound (s.files (manifest_path mid)) refl;
  }
    where
      save : Keeps env (
          write_file (manifest_tmp_path mid) body
          >> replace_file (manifest_tmp_path mid) (manifest_path mid))
      save =
          Triple-bind
            (write_file-Sound env.hash (manifest_tmp_path mid) body
              (no_claim env (manifest_tmp_path mid) body (manifest_path_unclaimed _)))
            λ _.
              Triple-post (λ _ _ _. tt)
                (replace_file-Sound env.hash (manifest_tmp_path mid) (manifest_path mid) body
                  (no_claim env (manifest_path mid) body (manifest_path_unclaimed _)))

      Saved : Result Failure (Unit {0}) × CacheState → Type 0
      Saved r = Outcome (Sound env.hash) (λ _ _. Unit {0}) r.0 r.1

      new :
          (s : CacheState)
          → s.files (manifest_path mid) ≡ none
          → save_manifest env mid body s
            ≡ (write_file (manifest_tmp_path mid) body
                  >> replace_file (manifest_tmp_path mid) (manifest_path mid))
                s
      new s e = rw (e, save_manifest) refl

      old :
          (s : CacheState) (b : Bytes)
          → s.files (manifest_path mid) ≡ some b
          → save_manifest env mid body s ≡ (ok tt, s)
      old s b e = rw (e, save_manifest) refl

      saves :
          (s : CacheState)
          → Sound env.hash s
          → (o : Option Bytes) → s.files (manifest_path mid) ≡ o
          → Saved (save_manifest env mid body s)
      saves s sound none e = subst Saved (sym (new s e)) (save.run s sound)
      saves s sound (some b) e = subst Saved (sym (old s b e)) (sound, tt)

  manifest_answer :
      (mid : Text) (body : Bytes) (o : Option ManifestV1)
      → Ensures env (elim o as (λ _. Method FilePath) [
        | none ↦ raise (corrupt manifest_parse_failed mid)
        | some m ↦ if is_empty m.whole_file_blake3 then raise (corrupt missing_whole mid) else do
          save_manifest env mid body
          hit_or env m.whole_file_blake3 (out_name m) (known_size m) do
            env.lock (lock_path m.whole_file_blake3)
            hit_or env m.whole_file_blake3 (out_name m) (known_size m) (build_file env mid m)
      ])
  manifest_answer mid body none = record { run = λ s h. h }
  manifest_answer mid body (some m) =
      let whole = m.whole_file_blake3 in
      Triple-if (is_empty whole) (raise (corrupt missing_whole mid))
        (save_manifest env mid body
          >> guarded whole (out_name m) (known_size m) (build_file env mid m))
        (λ _. record { run = λ s h. h })
        (λ _. Triple-bind (save_manifest-Sound mid body) λ _.
          Triple-weaken (λ s h. h.0)
            (guarded-Sound whole (out_name m) (known_size m) _ (build_file-Sound env on mid m)))

  ensure_from_manifest-Sound : (mid : Text) → Ensures env (ensure_from_manifest env mid)
  unfolding ensure_from_manifest
  ensure_from_manifest-Sound mid =
      Triple-bind (lift-Sound env (env.client.get_blob_bytes (lower (strip mid)))) λ body.
        Triple-weaken (λ s h. h.0)
          (manifest_answer (lower (strip mid)) body (try_parse_manifest env.python body))

  pub ensure_cached-Sound :
      (content_id filename : Text) (size : Option ℤ)
      → Ensures env (ensure_cached env content_id filename size)
  unfolding ensure_cached fetch_small fetch_large
  ensure_cached-Sound content_id filename size =
      let cid = lower (strip content_id) in
      let fname = strip filename in
      hit_or-Sound env cid fname size _ (
        Triple-if (is_small (env.client.head_blob cid)) (fetch_small env cid fname size)
          (fetch_large env cid fname size)
          (λ _. Triple-bind (lift-Sound env (env.client.first_blob_bytes cid)) λ body.
            Triple-weaken (λ s h. h.0)
              (Triple-if (names_whole_file (try_parse_manifest env.python body))
                (ensure_from_manifest env cid) (ensure_raw_blob_from_bytes env cid fname size body)
                (λ _. ensure_from_manifest-Sound cid)
                (λ _. ensure_raw_blob_from_bytes-Sound cid fname size body)))
          (λ _. guarded-Sound cid fname size _ (download-Sound env on cid fname size)))

-- With hashes verified, and a lock under which other processes keep the cache sound,
-- `ensure_uri_cached` keeps it sound, whatever the client answers and whichever step fails: each
-- file that stands under a content id or a chunk hash has that hash, and the index has one row for
-- each content id, that names a file of that content id. Where it returns a path, it is the path of a file that is there,
-- and the eviction at the end has not removed it.
pub ensure_uri_cached-Sound :
    (env : Env)
    → should_verify_hash env.config ≡ true
    → SafeLock env
    → (uri : Text) (s : CacheState) → Sound env.hash s
    → Outcome
        (Sound env.hash)
        Present
        (ensure_uri_cached env uri s).0
        (ensure_uri_cached env uri s).1
unfolding ensure_uri_cached
ensure_uri_cached-Sound env on locks uri s sound = ensures.run s sound
  where
    answered :
        (r : Resolved)
        → Ensures env (
            let content_id = lower (strip r.content_id) in
            let filename = strip r.filename in
            if is_empty content_id || is_empty filename
            then raise (
                corrupt missing_fields
                  (if is_empty content_id then codes "unknown" else content_id))
            else ensure_cached env content_id filename r.size)
    answered r =
        let content_id = lower (strip r.content_id) in
        let filename = strip r.filename in
        Triple-if (is_empty content_id || is_empty filename)
          (raise
            (corrupt missing_fields (if is_empty content_id then codes "unknown" else content_id)))
          (ensure_cached env content_id filename r.size) (λ _. record { run = λ s h. h })
          (λ _. ensure_cached-Sound env on locks content_id filename r.size)

    ensures : Ensures env (ensure_uri_cached env uri)
    ensures =
        Triple-bind (lift-Sound env (env.client.resolve uri))
          λ r. Triple-weaken (λ s h. h.0) (answered r)
