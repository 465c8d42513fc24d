-- ===== src/Omni/Ingested.antt =====
-- What ingest leaves on a lawful server: every blob that its manifest names, and segments that stand
-- for all of the file.
use mathlib.Core.Path.{subst}
use zeno_plugin.Prelude.{◌<◌, ◌≡◌, refl, [], arith, length, slice, take_all}
use zeno_plugin.Prelude.Action.{pure, ◌>>=◌, Outcome, Triple, Triple-bind, Triple-weaken}
use zeno_plugin.Entropy.Tiles.{scan_entropy_segments-Tiles}
use zeno_plugin.Client.{Api, ensure_blob}
use zeno_plugin.Client.Laws.{View, Lawful}
use zeno_plugin.Client.Stored.{Intact, AllHas, Stored, ensure_blob-Stored}
use zeno_plugin.Omni.{
  Engine, IngestRequest, OmniIngestResult, Progress, chunk_source, settings, manifest_v3,
  ingest_omni_file, ingest_result,
}
use zeno_plugin.Omni.Patch.Payloads.{Inverts}
use zeno_plugin.Omni.Restored.{Restores, segment_hashes}
use zeno_plugin.Omni.Segments.{ingest_segments-Kept}

module _ {S F : Type 0} (view : View S) (en : Engine F) (req : IngestRequest F) where
  -- What a manifest is made of: the file's own segments, with every blob of theirs there
  abbrev pub Ingested : OmniIngestResult → S → Type 0
  Ingested r s =
      view.Has r.manifest_id s
      × (r.manifest_id ≡ en.hash r.manifest_bytes)
      × (r.manifest_bytes ≡ manifest_v3 en req r.segments)
      × AllHas view (segment_hashes r.segments) s
      × Restores en.hash en.zstd r.segments (chunk_source en req)

module _ {S F : Type 0} (view : View S) (api : Api S) (en : Engine F)
    (laws : Lawful view api en.hash) (inverts : Inverts en.zstd) (req : IngestRequest F) where
  pub ingest-Ingested :
      0 < req.chunking.max
      → 0 < (settings en req.entropy).window_size
      → Triple (Intact view) (Intact view) (Ingested view en req) (ingest_omni_file api en req)
  unfolding ingest_omni_file
  ingest-Ingested room windows =
      let source = chunk_source en req in
      let tiles = scan_entropy_segments-Tiles en.floats (settings en req.entropy) source windows in
      Triple-weaken (λ s i. (i, tt))
        (Triple-bind
          (ingest_segments-Kept view api en laws inverts req 0 (length source) _ room tiles.0 [])
          λ p. record { run = λ s (i, (c, a, r)). (sealed p r).run s (i, c) })
    where
      sealed :
          (p : Progress)
          → Restores en.hash en.zstd p.segments
              (slice (chunk_source en req) 0 (length (chunk_source en req)))
          → Triple (Stored view (segment_hashes p.segments)) (Intact view) (Ingested view en req) (
              ensure_blob api
                (manifest_v3 en req p.segments)
                (en.hash (manifest_v3 en req p.segments))
              >>= λ _. pure (ingest_result api en req p))
      sealed p r =
          Triple-bind
            (ensure_blob-Stored view api en.hash laws (segment_hashes p.segments) _ _ refl)
            λ n. record {
              run = λ s (i, (h, c)). (
                i,
                (
                  h,
                  refl,
                  refl,
                  c,
                  subst (Restores en.hash en.zstd p.segments) (take_all _ _ (omega arith)) r,
                ),
              );
            }

-- Under the laws of the server and of zstandard, with windows and chunks that may hold a byte,
-- ingest keeps the server intact whichever call fails. Where it succeeds, the manifest is there
-- under its hash, it lists the segments of the result, every blob that they name is there, and they
-- stand, in order, for the bytes to be stored: each names the hash of its bytes, or the hashes of a
-- dictionary and a patch that unpack to them.
pub ingest_omni_file-Ingested :
    {S F : Type 0} (view : View S) (api : Api S) (en : Engine F)
    → Lawful view api en.hash
    → Inverts en.zstd
    → (req : IngestRequest F) (s : S) → 0 < req.chunking.max
    → 0 < (settings en req.entropy).window_size
    → Intact view s
    → Outcome
        (Intact view)
        (Ingested view en req)
        (ingest_omni_file api en req s).0
        (ingest_omni_file api en req s).1
ingest_omni_file-Ingested view api en laws inverts req s room windows i =
    (ingest-Ingested view api en laws inverts req room windows).run s i
