-- ===== src/Cache/Checks.antt =====
-- The downloads of `LocalCache`: a file is written under a temporary name, checked, and moved.
use mathlib.Core.Path.{subst}
use zeno_plugin.Prelude.{
  ◌≡◌, refl, sym, ap, ◌∙◌, inl, inr, true, false, not, ◌||◌, Option, none, some, ◌++◌, arith,
  length, length-append, ◌+◌, Bool-cases,
}
use zeno_plugin.Prelude.Text.{Text, codes, text_eq, text_eq_iff}
use zeno_plugin.Prelude.Result.{Result, ok, err}
use zeno_plugin.Prelude.Int.{ℤ}
use zeno_plugin.Prelude.Action.{
  pure, raise, ◌>>◌, Outcome, Triple, Triple-post, Triple-bind, Triple-if, Triple-weaken,
}
use zeno_plugin.Chunking.{Bytes}
use zeno_plugin.Index.{FilePath}
use zeno_plugin.Cache.Disk.{
  CacheState, Failure, corrupt, Corruption, size_mismatch, hash_mismatch, remove_file, replace_file,
  path_eq, path_eq_iff, blob_path, download_path,
}
use zeno_plugin.Cache.{
  Env, lift, should_verify_hash, check_size, check_hash, size_fits, store_bytes, publish_download,
  download,
}
use zeno_plugin.Cache.Claims.{
  claimed, Sound, Holds, write_file-Sound, remove_file-Sound, replace_file-Sound,
  download_path_unclaimed, blob_path_claim,
}
use zeno_plugin.Cache.Soundness.{Present, finish-Sound}

module _ (env : Env) where
  pub give_up :
      {A : Type 0} {pre : CacheState → Type 0} {post : A → CacheState → Type 0} (tmp : FilePath)
      (e : Failure)
      → Triple (λ s. Sound env.hash s × pre s) (Sound env.hash) post (remove_file tmp >> raise e)
  give_up tmp e =
      Triple-weaken (λ s h. h.0)
        (Triple-bind (remove_file-Sound env.hash tmp) λ _. record { run = λ s h. h.0 })

  pub check_size-Sound :
      (tmp : FilePath) (body : Bytes) (size : Option ℤ) (reason : Corruption) (cid : Text)
      → Triple
          (λ s. Sound env.hash s × Holds tmp body s)
          (Sound env.hash)
          (λ _. Holds tmp body)
          (check_size env tmp body size reason cid)
  unfolding check_size
  check_size-Sound tmp body size reason cid =
      Triple-if (size_fits env.config size (length body)) (pure tt)
        (remove_file tmp >> raise (corrupt reason cid)) (λ _. record { run = λ s h. h })
        (λ _. give_up {pre = Holds tmp body} tmp (corrupt reason cid))

  pub check_hash-Sound :
      should_verify_hash env.config ≡ true
      → (tmp : FilePath) (body : Bytes) (expected : Text) (reason : Corruption) (cid : Text)
      → Triple
          (λ s. Sound env.hash s × Holds tmp body s)
          (Sound env.hash)
          (λ _ s. Holds tmp body s × (env.hash body ≡ expected))
          (check_hash env tmp body expected reason cid)
  unfolding check_hash
  check_hash-Sound on tmp body expected reason cid =
      Triple-if (not (should_verify_hash env.config) || text_eq (env.hash body) expected) (pure tt)
        (remove_file tmp >> raise (corrupt reason cid))
        (λ good. record {
          run = λ s h.
              (h.0, (h.1, (text_eq_iff (env.hash body) expected).0 (ground (arith, on, good))));
        })
        (λ _. give_up {pre = Holds tmp body} tmp (corrupt reason cid))

  pub lift-Sound :
      {A : Type 0} (r : Result Failure A)
      → Triple (Sound env.hash) (Sound env.hash) (λ _ _. Unit {0}) (lift r)
  lift-Sound (ok a) = record { run = λ s h. (h, tt) }
  lift-Sound (err e) = record { run = λ s h. h }

  pub fit :
      (cid fname : Text) (body : Bytes)
      → env.hash body ≡ cid
      → (h : Text) → claimed (blob_path cid fname) ≡ some h
      → env.hash body ≡ h
  fit cid fname body good h claim = good ∙ blob_path_claim cid fname h claim

  pub no_claim :
      (p : FilePath) (body : Bytes)
      → claimed p ≡ none
      → (h : Text) → claimed p ≡ some h
      → env.hash body ≡ h
  no_claim p body none_here h claim = absurd cc

  -- What is written to a temporary name, checked and moved goes under a hash that it has.
  pub store_bytes-Sound :
      should_verify_hash env.config ≡ true
      → (cid fname : Text) (size : Option ℤ) (body : Bytes)
      → Triple (Sound env.hash) (Sound env.hash) Present (store_bytes env cid fname size body)
  unfolding store_bytes
  store_bytes-Sound on cid fname size body =
      let tmp = download_path cid fname in
      Triple-bind
        (write_file-Sound env.hash tmp body (no_claim tmp body (download_path_unclaimed cid fname)))
        λ _. Triple-bind (check_size-Sound tmp body size size_mismatch cid) λ _.
          Triple-bind (check_hash-Sound on tmp body cid hash_mismatch cid) λ _. record {
            run = λ s (sound, (there, good)).
                (Triple-bind
                    (replace_file-Sound env.hash tmp (blob_path cid fname) body
                      (fit cid fname body good))
                    λ _. finish-Sound env cid fname body).run
                  s (sound, there);
          }

  pub tmp_apart :
      (cid fname : Text) → path_eq (download_path cid fname) (blob_path cid fname) ≡ false
  tmp_apart cid fname =
      elim (Bool-cases (path_eq (download_path cid fname) (blob_path cid fname))) [
        | inr apart ↦ apart
        | inl clash ↦
            let at : download_path cid fname ≡ blob_path cid fname = (path_eq_iff _ _).0 clash in
            let names : fname ++ codes ".download.tmp" ≡ fname = cc in
            let lengths : length fname + 13 ≡ length fname =
              sym (length-append fname (codes ".download.tmp")) ∙ ap length names in
            absurd (omega (arith, lengths))
      ]

  pub published_new :
      (cid fname : Text) (s : CacheState)
      → s.files (blob_path cid fname) ≡ none
      → publish_download env cid fname s
        ≡ replace_file (download_path cid fname) (blob_path cid fname) s
  unfolding publish_download
  published_new cid fname s absent = rw (absent, publish_download) refl

  pub published_old :
      (cid fname : Text) (s : CacheState) (b : Bytes)
      → s.files (blob_path cid fname) ≡ some b
      → publish_download env cid fname s ≡ remove_file (download_path cid fname) s
  unfolding publish_download
  published_old cid fname s b old = rw (old, publish_download) refl

  remove_file_keeps :
      (p q : FilePath) (b : Bytes) (s : CacheState)
      → path_eq p q ≡ false
      → Holds q b s
      → Holds q b (remove_file p s).1
  unfolding remove_file
  remove_file_keeps p q b s apart there = rw apart there

  abbrev Finished : Text → Text → Result Failure (Unit {0}) × CacheState → Type 0
  Finished cid fname r =
      Outcome (Sound env.hash) (λ _ s. (b : Bytes) × Holds (blob_path cid fname) b s) r.0 r.1

  published :
      (cid fname : Text) (body : Bytes) (s : CacheState)
      → Sound env.hash s
      → Holds (download_path cid fname) body s
      → env.hash body ≡ cid
      → (o : Option Bytes) → s.files (blob_path cid fname) ≡ o
      → Finished cid fname (publish_download env cid fname s)
  unfolding remove_file
  published cid fname body s sound there good none absent =
      let moved =
        replace_file-Sound env.hash (download_path cid fname) (blob_path cid fname) body
          (fit cid fname body good) in
      let kept : Triple (λ s. Sound env.hash s × Holds (download_path cid fname) body s)
          (Sound env.hash) (λ _ s. (b : Bytes) × Holds (blob_path cid fname) b s)
          (replace_file (download_path cid fname) (blob_path cid fname)) =
        Triple-post (λ _ _ held. (body, held)) moved in
      subst (Finished cid fname) (sym (published_new cid fname s absent))
        (kept.run s (sound, there))
  published cid fname body s sound there good (some b) old =
      subst (Finished cid fname) (sym (published_old cid fname s b old)) (
        ((remove_file-Sound env.hash (download_path cid fname)).run s sound).0,
        (
          b,
          remove_file_keeps (download_path cid fname) (blob_path cid fname) b s
              (tmp_apart cid fname) old,
        ),
      )

  publish_download-Sound :
      (cid fname : Text) (body : Bytes)
      → Triple
          (λ s. Sound env.hash s × (Holds (download_path cid fname) body s × (env.hash body ≡ cid)))
          (Sound env.hash)
          (λ _ s. (b : Bytes) × Holds (blob_path cid fname) b s)
          (publish_download env cid fname)
  publish_download-Sound cid fname body = record {
    run = λ s (sound, (there, good)).
        published cid fname body s sound there good (s.files (blob_path cid fname)) refl;
  }

  pub download-Sound :
      should_verify_hash env.config ≡ true
      → (cid fname : Text) (size : Option ℤ)
      → Triple (Sound env.hash) (Sound env.hash) Present (download env cid fname size)
  unfolding download
  download-Sound on cid fname size =
      let tmp = download_path cid fname in
      Triple-bind (remove_file-Sound env.hash tmp) λ _.
        Triple-weaken (λ s h. h.0)
          (Triple-bind (lift-Sound (env.client.get_blob cid)) λ body.
            Triple-weaken (λ s h. h.0)
              (Triple-bind
                (write_file-Sound env.hash tmp body
                  (no_claim tmp body (download_path_unclaimed cid fname)))
                λ _. Triple-bind (check_size-Sound tmp body size size_mismatch cid) λ _.
                  Triple-bind (check_hash-Sound on tmp body cid hash_mismatch cid) λ _.
                    Triple-bind (publish_download-Sound cid fname body) λ _. record {
                      run = λ s (sound, (b, there)).
                          (finish-Sound env cid fname b).run s (sound, there);
                    }))
