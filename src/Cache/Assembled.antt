-- ===== src/Cache/Assembled.antt =====
-- The assembly of a file from chunks and patches, in `_ensure_from_manifest`.
use mathlib.Core.Path.{subst}
use zeno_plugin.Prelude.{
  ℕ, max, ◌≡◌, refl, sym, ◌∙◌, inl, inr, true, Option, none, some, List, [], ◌∷◌, Bool-cases,
}
use zeno_plugin.Prelude.Text.{Text}
use zeno_plugin.Prelude.Result.{Result, ok, err}
use zeno_plugin.Prelude.Int.{pos}
use zeno_plugin.Prelude.Action.{
  pure, raise, ◌>>=◌, ◌>>◌, Outcome, Triple, Triple-post, Triple-bind, Triple-weaken,
}
use zeno_plugin.Chunking.{Bytes}
use zeno_plugin.Index.{FilePath}
use zeno_plugin.Cache.Disk.{CacheState, Failure, no_such_file, corrupt, Method, blob_path}
use zeno_plugin.Cache.{Env, lift, should_verify_hash}
use zeno_plugin.Cache.Claims.{claimed, Sound, Holds, write_file-Sound, replace_file-Sound}
use zeno_plugin.Manifest.{ManifestV1, ManifestChunk, ManifestSegment, raw_chunk, zstd_dict_patch}
use zeno_plugin.Cache.Assemble.{
  known_size, out_name, v3_segments, has_chunk, fetch_chunk, ensure_chunk, ensure_chunks,
  copy_chunk, write_patch, write_segment, write_segments, write_chunks, assemble, build_file,
}
use zeno_plugin.Cache.Disk.{
  read_file, append_file, assemble_path, chunk_path, chunk_tmp_path, chunk_size_mismatch,
  chunk_hash_mismatch, zstd_required, assembled_size_mismatch, assembled_hash_mismatch,
}
use zeno_plugin.Cache.Claims.{
  append_file-Sound, assemble_path_unclaimed, chunk_tmp_path_unclaimed, chunk_path_claim,
}
use zeno_plugin.Cache.Soundness.{Present, finish-Sound}
use zeno_plugin.Cache.Checks.{check_size-Sound, check_hash-Sound, lift-Sound, fit, no_claim}

module _ (env : Env) where
  abbrev pub Keeps : Method (Unit {0}) → Type 0
  Keeps m = Triple (Sound env.hash) (Sound env.hash) (λ _ _. Unit {0}) m

  pub done : Keeps (pure tt)
  done = record { run = λ s h. (h, tt) }

  pub sequel : (m n : Method (Unit {0})) → Keeps m → Keeps n → Keeps (m >> n)
  sequel m n t u = Triple-bind t λ _. Triple-weaken (λ s h. h.0) u

  read_file-Sound :
      (p : FilePath) → Triple (Sound env.hash) (Sound env.hash) (λ b. Holds p b) (read_file p)
  unfolding read_file
  read_file-Sound p = record { run = λ s sound. reads s sound (s.files p) refl }
    where
      missing : (s : CacheState) → s.files p ≡ none → read_file p s ≡ (err (no_such_file p), s)
      missing s e = rw (e, read_file) refl

      there : (s : CacheState) (b : Bytes) → s.files p ≡ some b → read_file p s ≡ (ok b, s)
      there s b e = rw (e, read_file) refl

      Reads : Result Failure Bytes × CacheState → Type 0
      Reads r = Outcome (Sound env.hash) (λ b. Holds p b) r.0 r.1

      reads :
          (s : CacheState)
          → Sound env.hash s
          → (o : Option Bytes) → s.files p ≡ o
          → Reads (read_file p s)
      reads s sound none e = subst Reads (sym (missing s e)) sound
      reads s sound (some b) e = subst Reads (sym (there s b e)) (sound, e)

  fetch_chunk-Sound :
      should_verify_hash env.config ≡ true → (ch : ManifestChunk) → Keeps (fetch_chunk env ch)
  unfolding fetch_chunk
  fetch_chunk-Sound on ch =
      let tmp = chunk_tmp_path ch.hash in
      Triple-bind (lift-Sound env (env.client.get_blob ch.hash)) λ body.
        Triple-weaken (λ s h. h.0)
          (Triple-bind
            (write_file-Sound env.hash tmp body
              (no_claim env tmp body (chunk_tmp_path_unclaimed ch.hash)))
            λ _.
              Triple-bind
                (check_size-Sound env tmp body (some (pos ch.size)) chunk_size_mismatch ch.hash)
                λ _.
                  Triple-bind (check_hash-Sound env on tmp body ch.hash chunk_hash_mismatch ch.hash)
                    λ _. record {
                      run = λ s (sound, (there, good)).
                          (Triple-post (λ _ _ _. tt)
                              (replace_file-Sound env.hash tmp (chunk_path ch.hash) body
                                (λ h claim. good ∙ chunk_path_claim ch.hash h claim))).run
                            s (sound, there);
                    })

  ensure_chunks-Sound :
      should_verify_hash env.config ≡ true
      → (chs : List ManifestChunk) → Keeps (ensure_chunks env chs)
  unfolding ensure_chunks ensure_chunk
  ensure_chunks-Sound on [] = done
  ensure_chunks-Sound on (ch ∷ chs) =
      sequel _ _
        (record {
          run = λ s sound. elim (Bool-cases (has_chunk env ch s)) [
            | inl old ↦ rw old (sound, tt)
            | inr new ↦ rw new ((fetch_chunk-Sound on ch).run s sound)
          ];
        })
        (ensure_chunks-Sound on chs)

  copy_chunk-Sound : (out : FilePath) (h : Text) → claimed out ≡ none → Keeps (copy_chunk env out h)
  unfolding copy_chunk
  copy_chunk-Sound out h unclaimed =
      Triple-bind (read_file-Sound (chunk_path h))
        λ body. Triple-weaken (λ s h. h.0) (append_file-Sound env.hash out body unclaimed)

  write_patch-Sound :
      (out : FilePath) (mid dict_hash patch_hash : Text) (n : ℕ)
      → claimed out ≡ none
      → Keeps (write_patch env out mid dict_hash patch_hash n)
  unfolding write_patch
  write_patch-Sound out mid dict_hash patch_hash n unclaimed = patched env.decompress
    where
      patched :
          (d : Option (Bytes → Bytes → ℕ → Result Failure Bytes))
          → Keeps (elim d as (λ _. Method (Unit {0})) [
            | none ↦ raise (corrupt zstd_required mid)
            | some decompress ↦ do
              dbytes ← lift (env.client.get_blob_bytes dict_hash)
              pbytes ← lift (env.client.get_blob_bytes patch_hash)
              out_bytes ← lift (decompress dbytes pbytes (max 1 n))
              append_file out out_bytes
          ])
      patched none = record { run = λ s h. h }
      patched (some decompress) =
          Triple-bind (lift-Sound env (env.client.get_blob_bytes dict_hash)) λ dbytes.
            Triple-weaken (λ s h. h.0)
              (Triple-bind (lift-Sound env (env.client.get_blob_bytes patch_hash)) λ pbytes.
                Triple-weaken (λ s h. h.0)
                  (Triple-bind (lift-Sound env (decompress dbytes pbytes (max 1 n))) λ out_bytes.
                    Triple-weaken (λ s h. h.0)
                      (append_file-Sound env.hash out out_bytes unclaimed)))

  write_segments-Sound :
      (out : FilePath) (mid : Text) (segs : List ManifestSegment)
      → claimed out ≡ none
      → Keeps (write_segments env out mid segs)
  unfolding write_segments write_segment
  write_segments-Sound out mid [] unclaimed = done
  write_segments-Sound out mid (raw_chunk h size ∷ segs) unclaimed =
      sequel _ _ (copy_chunk-Sound out h unclaimed) (write_segments-Sound out mid segs unclaimed)
  write_segments-Sound out mid (zstd_dict_patch p a b d h size n ∷ segs) unclaimed =
      sequel _ _ (write_patch-Sound out mid d h n unclaimed)
        (write_segments-Sound out mid segs unclaimed)

  write_chunks-Sound :
      (out : FilePath) (chs : List ManifestChunk)
      → claimed out ≡ none
      → Keeps (write_chunks env out chs)
  unfolding write_chunks
  write_chunks-Sound out [] unclaimed = done
  write_chunks-Sound out (ch ∷ chs) unclaimed =
      sequel _ _ (copy_chunk-Sound out ch.hash unclaimed) (write_chunks-Sound out chs unclaimed)

  assemble-Sound :
      (out : FilePath) (mid : Text) (m : ManifestV1)
      → claimed out ≡ none
      → Keeps (assemble env out mid m)
  unfolding assemble
  assemble-Sound out mid m unclaimed =
      Triple-bind (write_file-Sound env.hash out [] (no_claim env out [] unclaimed))
        λ _. Triple-weaken (λ s h. h.0) (parts (v3_segments m))
    where
      parts :
          (o : Option (List ManifestSegment))
          → Keeps (elim o as (λ _. Method (Unit {0})) [
            | some segs ↦ write_segments env out mid segs
            | none ↦ write_chunks env out m.chunks
          ])
      parts (some segs) = write_segments-Sound out mid segs unclaimed
      parts none = write_chunks-Sound out m.chunks unclaimed

  pub build_file-Sound :
      should_verify_hash env.config ≡ true
      → (mid : Text) (m : ManifestV1)
      → Triple (Sound env.hash) (Sound env.hash) Present (build_file env mid m)
  unfolding build_file
  build_file-Sound on mid m =
      let whole = m.whole_file_blake3 in
      let out = assemble_path whole (out_name m) in
      Triple-bind (ensure_chunks-Sound on m.chunks) λ _.
        Triple-weaken (λ s h. h.0)
          (Triple-bind (assemble-Sound out mid m (assemble_path_unclaimed whole (out_name m))) λ _.
            Triple-weaken (λ s h. h.0)
              (Triple-bind (read_file-Sound out) λ body.
                Triple-bind
                  (check_size-Sound env out body (known_size m) assembled_size_mismatch whole)
                  λ _.
                    Triple-bind
                      (check_hash-Sound env on out body whole assembled_hash_mismatch whole)
                      λ _. record {
                        run = λ s (sound, (there, good)).
                            (Triple-bind
                                (replace_file-Sound env.hash out (blob_path whole (out_name m)) body
                                  (fit env whole (out_name m) body good))
                                λ _. finish-Sound env whole (out_name m) body).run
                              s (sound, there);
                      }))
