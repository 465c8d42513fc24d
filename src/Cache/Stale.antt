-- ===== src/Cache/Stale.antt =====
-- A file of the wrong size: `ensure_cached` refuses it as a hit, and keeps it all the same.
use mathlib.Core.Path.{subst}
use zeno_plugin.Prelude.{
  ◌≡◌, refl, sym, ap, ◌∙◌, true, false, Option, none, some, [], ◌∷◌, length, inl, inr, Option-cases,
}
use zeno_plugin.Prelude.Text.{Text, strip, lower}
use zeno_plugin.Prelude.Action.{bind_ok}
use zeno_plugin.Prelude.Result.{Result, ok}
use zeno_plugin.Prelude.Int.{ℤ}
use zeno_plugin.Chunking.{Bytes}
use zeno_plugin.Index.{FilePath}
use zeno_plugin.Index.Rows.{All, Unique}
use zeno_plugin.Cache.Disk.{
  CacheState, Failure, Method, size_mismatch, hash_mismatch, write_file, remove_file, blob_path,
  download_path,
}
use zeno_plugin.Cache.{
  Env, lift, lock_path, size_fits, is_valid_hit, check_size, check_hash, finish, hit_or, download,
  publish_download, touch_index, evict_if_needed,
}
use zeno_plugin.Cache.Ensure.{is_small, fetch_large, ensure_cached}
use zeno_plugin.Cache.Claims.{Located, path_eq_refl}
use zeno_plugin.Cache.Soundness.{evict_if_needed-Evicts, touch_index-Located}
use zeno_plugin.Cache.Eviction.Kept.{Evicts_no_new_file}
use zeno_plugin.Cache.Checks.{published_old, tmp_apart}
use zeno_plugin.Cache.Succeeds.{Returns, finish-Returns, checked, verified}

module _ (env : Env) (cid fname : Text) (body old : Bytes) where
  refused :
      (size : Option ℤ) (s : CacheState)
      → s.files (blob_path cid fname) ≡ some old
      → size_fits env.config size (length old) ≡ false
      → is_valid_hit env (blob_path cid fname) size s ≡ false
  unfolding is_valid_hit
  refused size s there misfit = rw (there, is_valid_hit, misfit) refl

  stale_missed :
      (size : Option ℤ) (s : CacheState) (miss : Method FilePath)
      → s.files (blob_path cid fname) ≡ some old
      → size_fits env.config size (length old) ≡ false
      → hit_or env cid fname size miss s ≡ miss s
  unfolding hit_or
  stale_missed size s miss there misfit = rw (refused size s there misfit) refl

  finish_adds_no_file :
      (s : CacheState) (p : FilePath)
      → Unique s.entries
      → All Located s.entries
      → s.files p ≡ none
      → (finish env cid fname s).1.files p ≡ none
  unfolding finish touch_index
  finish_adds_no_file s p u l gone =
      let at = blob_path cid fname in
      let s1 = (touch_index env cid fname at at s).1 in
      let s2 = (evict_if_needed env (cid ∷ []) s1).1 in
      let rows = touch_index-Located env cid fname at s u l in
      let evicted = evict_if_needed-Evicts env (cid ∷ []) s1 rows.0 in
      let ends : finish env cid fname s ≡ (ok at, s2) =
        bind_ok (touch_index env cid fname at at) _ s refl
        ∙ bind_ok (evict_if_needed env (cid ∷ [])) _ s1
            (ap (λ (r : Result Failure (Unit {0})). (r, s2)) evicted.0) in
      let still : s2.files p ≡ none = elim (Option-cases (s2.files p)) [
        | inl n ↦ n
        | inr (b, there) ↦ let before = Evicts_no_new_file evicted.1 p b there in absurd (cc)
      ] in
      ap (λ (r : Result Failure FilePath × CacheState). r.1.files p) ends ∙ still

  download_keeps :
      (size : Option ℤ) (s : CacheState)
      → Unique s.entries
      → All Located s.entries
      → s.files (blob_path cid fname) ≡ some old
      → env.client.get_blob cid ≡ ok body
      → env.hash body ≡ cid
      → size_fits env.config size (length body) ≡ true
      → Returns (blob_path cid fname) old (download env cid fname size s)
        × ((download env cid fname size s).1.files (download_path cid fname) ≡ none)
  unfolding download remove_file write_file
  download_keeps size s u l there get good fits =
      let tmp = download_path cid fname in
      let p = blob_path cid fname in
      let s1 = (remove_file tmp s).1 in
      let s2 = (write_file tmp body s1).1 in
      let s3 = (remove_file tmp s2).1 in
      let apart = tmp_apart env cid fname in
      let there2 : s2.files p ≡ some old = rw (apart, there) refl in
      let there3 : s3.files p ≡ some old = rw (apart, there) refl in
      let gone3 : s3.files tmp ≡ none = rw (path_eq_refl tmp) refl in
      let steps : download env cid fname size s ≡ finish env cid fname s3 =
        bind_ok (remove_file tmp) _ s refl
        ∙ bind_ok (lift (env.client.get_blob cid)) _ s1
            (ap (λ (r : Result Failure Bytes). (r, s1)) get)
        ∙ bind_ok (write_file tmp body) _ s1 refl
        ∙ bind_ok (check_size env tmp body size size_mismatch cid) _ s2
            (checked env cid fname body size s2 fits size_mismatch)
        ∙ bind_ok (check_hash env tmp body cid hash_mismatch cid) _ s2
            (verified env cid fname body s2 good hash_mismatch)
        ∙ bind_ok (publish_download env cid fname) _ s2
            (published_old env cid fname s2 old there2) in
      subst (λ (r : Result Failure FilePath × CacheState). Returns p old r × (r.1.files tmp ≡ none))
        (sym steps)
        (finish-Returns env cid fname old s3 u l there3, finish_adds_no_file s3 tmp u l gone3)

-- Take an index with one row for each content id, that names a file of that content id, and a file
-- that is there with another size than the one asked for, of a blob that is too large for a
-- manifest. If the lock is free and the client answers a blob of the right size and hash, then
-- `ensure_cached` refuses the file as a hit and does what `download` does; yet it returns the path of
-- the file that it has refused, which holds the old bytes and would be refused again, and nothing is
-- left at the path of the download.
pub ensure_cached_stale :
    (env : Env) (content_id filename : Text) (size : Option ℤ) (body old : Bytes) (s : CacheState)
    → Unique s.entries
    → All Located s.entries
    → s.files (blob_path (lower (strip content_id)) (strip filename)) ≡ some old
    → size_fits env.config size (length old) ≡ false
    → is_small (env.client.head_blob (lower (strip content_id))) ≡ false
    → env.lock (lock_path (lower (strip content_id))) s ≡ (ok tt, s)
    → env.client.get_blob (lower (strip content_id)) ≡ ok body
    → env.hash body ≡ lower (strip content_id)
    → size_fits env.config size (length body) ≡ true
    → let p = blob_path (lower (strip content_id)) (strip filename) in
      let r = ensure_cached env content_id filename size s in
      (is_valid_hit env p size s ≡ false)
      × (r ≡ download env (lower (strip content_id)) (strip filename) size s)
      × Returns p old r
      × (is_valid_hit env p size r.1 ≡ false)
      × (r.1.files (download_path (lower (strip content_id)) (strip filename)) ≡ none)
unfolding ensure_cached fetch_large
ensure_cached_stale env content_id filename size body old s u l there misfit large free get good
      fits =
    let cid = lower (strip content_id) in
    let fname = strip filename in
    let missed =
      λ (m : Method FilePath). stale_missed env cid fname body old size s m there misfit in
    let steps : ensure_cached env content_id filename size s ≡ download env cid fname size s =
      missed _ ∙ rw large (missed _ ∙ bind_ok (env.lock (lock_path cid)) _ s free ∙ missed _) in
    let ends = download_keeps env cid fname body old size s u l there get good fits in
    let (kept, gone) =
      subst
        (λ (r : Result Failure FilePath × CacheState).
          Returns (blob_path cid fname) old r × (r.1.files (download_path cid fname) ≡ none))
        (sym steps) ends in
    (
      refused env cid fname body old size s there misfit,
      steps,
      kept,
      refused env cid fname body old size (ensure_cached env content_id filename size s).1 kept.1
          misfit,
      gone,
    )
