-- ===== src/Omni/RoundTrip.antt =====
-- What ingest stored is written back as it was, or BLAKE3 has a collision.
use mathlib.Core.Path.{subst}
use zeno_plugin.Prelude.{◌<◌, ◌≡◌, refl, ap, ◌∙◌, ◌⊎◌, inl, inr, Option, some, List, []}
use zeno_plugin.Prelude.Text.{Text, codes, text_eq, strip, lower}
use zeno_plugin.Prelude.Result.{Result, ok}
use zeno_plugin.Prelude.Action.{Action, raise, Outcome, bind_ok}
use zeno_plugin.Chunking.{Bytes}
use zeno_plugin.Manifest.{ManifestSegment, payload_v3}
use zeno_plugin.Manifest.RoundTrip.{IsClean}
use zeno_plugin.Manifest.Value.{Json, arr, obj, Items, nil, item, get, or_default}
use zeno_plugin.Client.{Api}
use zeno_plugin.Client.Laws.{View, KeepsBlobs, Lawful, Serves}
use zeno_plugin.Client.Stored.{Intact, AllHas-keep}
use zeno_plugin.Omni.{
  Engine, IngestRequest, OmniIngestResult, chunk_source, settings, segments_json, manifest_json,
  ingest_omni_file,
}
use zeno_plugin.Omni.Materialize.{
  Site, truncate, write_listed, write_segments, materialize_from_manifest_v3,
}
use zeno_plugin.Omni.Patch.Payloads.{Inverts}
use zeno_plugin.Omni.Restored.{segment_hashes}
use zeno_plugin.Omni.Ingested.{Ingested, ingest_omni_file-Ingested}
use zeno_plugin.Omni.Returns.{Compresses, ingest_omni_file-Returns}
use zeno_plugin.Omni.Written.{Collision, segments-Wrote}

module _ {S F : Type 0} (api : Api S) (en : Engine F) (req : IngestRequest F) where
  -- the manifest that ingest made, read back by the codec, is written out at `site`
  abbrev restore : Option Json → Action Text (Site S) (Unit {0})
  restore (some (obj fs)) = materialize_from_manifest_v3 api en.python en.zstd fs
  restore _ = raise (codes "ValueError")

  -- `site` has the bytes that were stored
  abbrev pub WritesBack : OmniIngestResult → Site S → Type 0
  WritesBack r site =
      let ran = restore (en.python.loads r.manifest_bytes) site in
      (ran.0 ≡ ok tt) × (ran.1.out ≡ some (chunk_source en req))

  restore_steps :
      (segs : List ManifestSegment) (site : Site S)
      → restore (some (manifest_json en req segs)) site
        ≡ write_segments api en.python en.zstd (segments_json segs) (truncate site).1
  unfolding payload_v3 materialize_from_manifest_v3 get text_eq strip lower
  restore_steps segs site =
      bind_ok truncate _ site refl
      ∙ ap (λ v. write_listed api en.python en.zstd v (truncate site).1)
          (listed (segments_json segs))
    where
      listed : (xs : Items) → or_default (arr xs) (arr nil) ≡ arr xs
      listed nil = refl
      listed (item x xs) = refl

module _ {S F : Type 0} (view : View S) (api : Api S) (en : Engine F)
    (laws : Lawful view api en.hash) (serves : Serves view api en.hash)
    (clean_hash : (b : Bytes) → IsClean (en.hash b)) (req : IngestRequest F) where
  Ingested-WritesBack :
      (r : OmniIngestResult) (s : S) (site : Site S)
      → en.python.loads r.manifest_bytes ≡ some (manifest_json en req r.segments)
      → Ingested view en req r s
      → KeepsBlobs view s site.server
      → Collision en.hash ⊎ WritesBack api en req r site
  Ingested-WritesBack r s site codec (_, _, _, there, restores) keeps =
      let fresh = (truncate site).1 in
      let steps =
        ap (λ v. restore api en req v site) codec ∙ restore_steps api en req r.segments site in
      elim (segments-Wrote view api en.hash laws serves clean_hash en.python en.zstd r.segments
        (chunk_source en req) fresh restores
        (AllHas-keep view (segment_hashes r.segments) s site.server keeps there)) [
          | inl c ↦ inl c
          | inr (t, ran, out, _) ↦ inr (
            ap (λ (p : Result Text (Unit {0}) × Site S). p.0) (steps ∙ ran),
            ap (λ (p : Result Text (Unit {0}) × Site S). p.1.out) (steps ∙ ran) ∙ out [] refl,
          )
        ]

  -- The result of a run that succeeded, at the state that it left.
  of_run :
      (r : Result Text OmniIngestResult) (s : S) (a : OmniIngestResult)
      → r ≡ ok a
      → Outcome (Intact view) (Ingested view en req) r s
      → Ingested view en req a s
  of_run r s a e o = (subst (λ r. Outcome (Intact view) (Ingested view en req) r s) e o).1

-- Under the laws of the server and of zstandard, with windows and chunks that may hold a byte, with
-- digests that are clean texts and a codec that reads back the manifest that ingest made: on a
-- server that can be reached, where zstandard compresses, ingest succeeds. Whatever happens to the
-- server later, if it keeps the blobs, the manifest, read back and materialized there, writes
-- exactly the bytes that were to be stored, which are the canonical ones where they are given; or
-- else two different byte strings with the same digest are at hand.
pub materialize-ingest :
    {S F : Type 0} (view : View S) (api : Api S) (en : Engine F)
    → Lawful view api en.hash
    → Serves view api en.hash
    → Inverts en.zstd
    → Compresses en.zstd
    → ((b : Bytes) → IsClean (en.hash b))
    → (req : IngestRequest F) (s : S) (later : S → Site S)
    → ((s' : S) → KeepsBlobs view s' (later s').server)
    → ((r : OmniIngestResult)
        → (ingest_omni_file api en req s).0 ≡ ok r
        → en.python.loads r.manifest_bytes ≡ some (manifest_json en req r.segments))
    → 0 < req.chunking.max
    → 0 < (settings en req.entropy).window_size
    → Intact view s
    → (r : OmniIngestResult) × (s' : S) × (ingest_omni_file api en req s ≡ (ok r, s'))
      × (Collision en.hash ⊎ WritesBack api en req r (later s'))
materialize-ingest view api en laws serves inverts compresses clean_hash req s later kept codec room
      windows i =
    let (r, s', ran) = (ingest_omni_file-Returns view api en serves compresses req room).run s in
    let left = ingest_omni_file-Ingested view api en laws inverts req s room windows i in
    let returned : (ingest_omni_file api en req s).0 ≡ ok r =
      ap (λ (p : Result Text OmniIngestResult × _). p.0) ran in
    let made =
      subst (Ingested view en req r) (ap (λ (p : Result Text OmniIngestResult × _). p.1) ran)
        (of_run view api en laws serves clean_hash req _ _ r returned left) in
    (
      r,
      s',
      ran,
      Ingested-WritesBack view api en laws serves clean_hash req r s' (later s') (codec r returned)
          made (kept s'),
    )
