-- ===== src/Cache/Succeeds.antt =====
-- A file that is not cached is fetched: what it takes for `ensure_cached` to succeed.
use mathlib.Core.Path.{subst}
use zeno_plugin.Prelude.{
  ◌≡◌, refl, sym, ap, ◌∙◌, true, false, Option, none, some, [], ◌∷◌, arith, ◌||◌, not, length,
}
use zeno_plugin.Prelude.Text.{Text, text_eq, text_eq_iff, strip, lower}
use zeno_plugin.Prelude.Result.{Result, ok}
use zeno_plugin.Prelude.Int.{ℤ}
use zeno_plugin.Prelude.Action.{Outcome, bind_ok}
use zeno_plugin.Chunking.{Bytes}
use zeno_plugin.Index.{FilePath}
use zeno_plugin.Index.Rows.{All, Unique}
use zeno_plugin.Cache.Disk.{
  CacheState, Failure, Method, Corruption, size_mismatch, hash_mismatch, write_file, remove_file,
  replace_file, blob_path, download_path,
}
use zeno_plugin.Cache.{
  Env, lift, lock_path, should_verify_hash, size_fits, is_valid_hit, check_size, check_hash, finish,
  hit_or, download, publish_download, touch_index, evict_if_needed,
}
use zeno_plugin.Cache.Ensure.{is_small, fetch_large, ensure_cached}
use zeno_plugin.Cache.Claims.{
  Located, Sound, Holds, path_eq_refl, write_file-Sound, remove_file-Sound, replace_file-Sound,
  download_path_unclaimed,
}
use zeno_plugin.Cache.Soundness.{evict_if_needed-Evicts, Evicts_keeps_own, touch_index-Located}
use zeno_plugin.Cache.Checks.{published_new, tmp_apart, fit, no_claim}

-- `m` returns `p`, and a file there holds `b`.
abbrev pub Returns : FilePath → Bytes → Result Failure FilePath × CacheState → Type 0
Returns p b r = (r.0 ≡ ok p) × (r.1.files p ≡ some b)

module _ (env : Env) (cid fname : Text) (body : Bytes) where
  pub finish-Returns :
      (s : CacheState)
      → Unique s.entries
      → All Located s.entries
      → Holds (blob_path cid fname) body s
      → Returns (blob_path cid fname) body (finish env cid fname s)
  unfolding finish touch_index
  finish-Returns s u l there =
      let p = blob_path cid fname in
      let s1 = (touch_index env cid fname p p s).1 in
      let s2 = (evict_if_needed env (cid ∷ []) s1).1 in
      let rows = touch_index-Located env cid fname p s u l in
      let evicted = evict_if_needed-Evicts env (cid ∷ []) s1 rows.0 in
      let ends : finish env cid fname s ≡ (ok p, s2) =
        bind_ok (touch_index env cid fname p p) _ s refl
        ∙ bind_ok (evict_if_needed env (cid ∷ [])) _ s1
            (ap (λ (r : Result Failure (Unit {0})). (r, s2)) evicted.0) in
      subst (Returns p body) (sym ends) (refl, Evicts_keeps_own cid fname evicted.1 rows.1 ∙ there)

  pub checked :
      (size : Option ℤ) (s : CacheState)
      → size_fits env.config size (length body) ≡ true
      → (reason : Corruption)
      → check_size env (download_path cid fname) body size reason cid s ≡ (ok tt, s)
  unfolding check_size
  checked size s fits reason = rw fits refl

  pub verified :
      (s : CacheState)
      → env.hash body ≡ cid
      → (reason : Corruption)
      → check_hash env (download_path cid fname) body cid reason cid s ≡ (ok tt, s)
  unfolding check_hash
  verified s good reason =
      let passes : (not (should_verify_hash env.config) || text_eq (env.hash body) cid) ≡ true =
        ground (arith, (text_eq_iff (env.hash body) cid).1 good) in
      rw passes refl

  not_there :
      (size : Option ℤ) (s : CacheState) (miss : Method FilePath)
      → s.files (blob_path cid fname) ≡ none
      → hit_or env cid fname size miss s ≡ miss s
  unfolding hit_or is_valid_hit
  not_there size s miss gone =
      let miss_it : is_valid_hit env (blob_path cid fname) size s ≡ false =
        rw (gone, is_valid_hit) refl in
      rw miss_it refl

  download-Returns :
      (size : Option ℤ) (s : CacheState)
      → Sound env.hash s
      → s.files (blob_path cid fname) ≡ none
      → env.client.get_blob cid ≡ ok body
      → env.hash body ≡ cid
      → size_fits env.config size (length body) ≡ true
      → Returns (blob_path cid fname) body (download env cid fname size s)
  unfolding download remove_file write_file replace_file
  download-Returns size s sound gone get good fits =
      let tmp = download_path cid fname in
      let p = blob_path cid fname in
      let s1 = (remove_file tmp s).1 in
      let s2 = (write_file tmp body s1).1 in
      let s3 = (write_file p body (remove_file tmp s2).1).1 in
      let apart = tmp_apart env cid fname in
      let gone2 : s2.files p ≡ none = rw (apart, gone) refl in
      let there2 : s2.files tmp ≡ some body = rw (path_eq_refl tmp) refl in
      let sound1 = ((remove_file-Sound env.hash tmp).run s sound).0 in
      let sound2 =
        ((write_file-Sound env.hash tmp body
            (no_claim env tmp body (download_path_unclaimed cid fname))).run
          s1 sound1).0 in
      let moved : replace_file tmp p s2 ≡ (ok tt, s3) = rw (there2, replace_file) refl in
      let kept =
        (replace_file-Sound env.hash tmp p body (fit env cid fname body good)).run s2
          (sound2, there2) in
      let sound3 : Sound env.hash s3 × Holds p body s3 =
        subst (λ r. Outcome (Sound env.hash) (λ (u : Unit {0}). Holds p body) r.0 r.1) moved kept in
      let steps : download env cid fname size s ≡ finish env cid fname s3 =
        bind_ok (remove_file tmp) _ s refl
        ∙ bind_ok (lift (env.client.get_blob cid)) _ s1
            (ap (λ (r : Result Failure Bytes). (r, s1)) get)
        ∙ bind_ok (write_file tmp body) _ s1 refl
        ∙ bind_ok (check_size env tmp body size size_mismatch cid) _ s2
            (checked size s2 fits size_mismatch)
        ∙ bind_ok (check_hash env tmp body cid hash_mismatch cid) _ s2
            (verified s2 good hash_mismatch)
        ∙ bind_ok (publish_download env cid fname) _ s2
            (published_new env cid fname s2 gone2 ∙ moved) in
      subst (Returns p body) (sym steps) (finish-Returns s3 sound3.0.1 sound3.0.2 sound3.1)

-- A file that is not in the cache, which is sound, of a blob that is too large for a manifest: if
-- the lock is free and the client answers the blob of the content id, of the size that was asked
-- for, then `ensure_cached` returns the path of the file, and the file holds the bytes of the blob.
pub ensure_cached-Returns :
    (env : Env) (content_id filename : Text) (size : Option ℤ) (body : Bytes) (s : CacheState)
    → Sound env.hash s
    → s.files (blob_path (lower (strip content_id)) (strip filename)) ≡ none
    → is_small (env.client.head_blob (lower (strip content_id))) ≡ false
    → env.lock (lock_path (lower (strip content_id))) s ≡ (ok tt, s)
    → env.client.get_blob (lower (strip content_id)) ≡ ok body
    → env.hash body ≡ lower (strip content_id)
    → size_fits env.config size (length body) ≡ true
    → Returns
        (blob_path (lower (strip content_id)) (strip filename))
        body
        (ensure_cached env content_id filename size s)
unfolding ensure_cached fetch_large
ensure_cached-Returns env content_id filename size body s sound gone large free get good fits =
    let cid = lower (strip content_id) in
    let fname = strip filename in
    let p = blob_path cid fname in
    let steps : ensure_cached env content_id filename size s ≡ download env cid fname size s =
      not_there env cid fname body size s _ gone
      ∙ rw large (
          not_there env cid fname body size s _ gone
          ∙ bind_ok (env.lock (lock_path cid)) _ s free
          ∙ not_there env cid fname body size s _ gone) in
    subst (Returns p body) (sym steps)
      (download-Returns env cid fname body size s sound gone get good fits)
