-- ===== src/Omni/Returns.antt =====
-- Ingest returns where the server can be reached and zstandard compresses.
use zeno_plugin.Prelude.{
  ℕ, ◌<◌, ◌≡◌, refl, ap, Bool, true, false, Option, none, some, List, [], ◌∷◌, slice, if◌then◌else◌,
  inl, inr, ◌||◌, is_empty, Bool-cases, ◌*◌,
}
use zeno_plugin.Prelude.Text.{Text}
use zeno_plugin.Prelude.Result.{Result, ok}
use zeno_plugin.Prelude.Action.{Action, pure, ◌>>◌, AlwaysReturns, AlwaysReturns-bind}
use zeno_plugin.Chunking.{Bytes, Chunk}
use zeno_plugin.Entropy.{SegmentMode, low, high, mid, EntropySegment}
use zeno_plugin.Client.{Api, ensure_blob}
use zeno_plugin.Client.Laws.{View, Serves}
use zeno_plugin.Client.Stored.{Honest}
use zeno_plugin.Omni.{
  Engine, IngestRequest, chunk_source, segment_chunks, manifest_v3, upload_segment, raw_segment,
  patch_segment, patched, high_segment, ingest_segment, ingest_segments, ingest_omni_file,
}
use zeno_plugin.Omni.Patch.{Zstd, high_entropy_patch, zstd_training_samples, dict_size, patch_with}
use zeno_plugin.Omni.Segments.{segment_chunks-Honest}

-- zstandard compresses whatever it is given.
abbrev pub Compresses : Option Zstd → Type 0
Compresses none = Unit
Compresses (some z) = (dict new : Bytes) → (patch : Bytes) × (z.compress dict new ≡ ok patch)

answer :
    {S A : Type 0} (m : Action Text S A) → ((s : S) → (b : A) × ((m s).0 ≡ ok b)) → AlwaysReturns m
answer m k = record {
  run = λ s. let (b, e) = k s in (b, (m s).1, ap (λ (r : Result Text _). (r, (m s).1)) e);
}

compress_with :
    (zstd : Option Zstd) (new : Bytes) (parent : Option Bytes)
    → Compresses zstd
    → (p : Option (Bytes × Bytes)) × (high_entropy_patch zstd new parent ≡ ok p)
unfolding high_entropy_patch
compress_with none new parent c = (none, refl)
compress_with (some z) new none c = (none, refl)
compress_with (some z) new (some parent) c =
    let samples = zstd_training_samples (256 * 1024) parent in
    elim (Bool-cases (is_empty parent || is_empty new || is_empty samples)) [
      | inl e ↦ (none, rw e refl)
      | inr e ↦
          let (p, made) = trained (z.train_dictionary (dict_size parent) samples) in (p, rw e made)
    ]
  where
    trained : (dict : Option Bytes) → (p : Option (Bytes × Bytes)) × (patch_with z new dict ≡ ok p)
    trained none = (none, refl)
    trained (some dict) = let (patch, e) = c dict new in (some (dict, patch), rw e refl)

module _ {S F : Type 0} (view : View S) (api : Api S) (en : Engine F)
    (serves : Serves view api en.hash) (compresses : Compresses en.zstd) where
  ensure_blob-Returns : (b : Bytes) (h : Text) → en.hash b ≡ h → AlwaysReturns (ensure_blob api b h)
  unfolding ensure_blob
  ensure_blob-Returns b h good =
      AlwaysReturns-bind (answer (api.blob_exists h) (serves.exists_answers h)) λ there. sent there
    where
      sent :
          (there : Bool)
          → AlwaysReturns {A = ℕ} (if there then pure 0 else (api.upload b h >> pure 1))
      sent true = record { run = λ s. (0, s, refl) }
      sent false =
          AlwaysReturns-bind (answer (api.upload b h) (λ s. (tt, serves.upload_taken b h s good)))
            λ _. record { run = λ s. (1, s, refl) }

  upload_segment-Returns :
      (source : Bytes) (chs : List Chunk)
      → Honest en.hash source chs
      → AlwaysReturns (upload_segment api en source chs)
  unfolding upload_segment
  upload_segment-Returns source [] good = record { run = λ s. (_, s, refl) }
  upload_segment-Returns source (ch ∷ chs) (good, rest) =
      AlwaysReturns-bind (ensure_blob-Returns _ ch.content_hash good) λ m.
        AlwaysReturns-bind (upload_segment-Returns source chs rest)
          λ (n, segs). record { run = λ s. (_, s, refl) }

  module _ (req : IngestRequest F) (room : 0 < req.chunking.max) where
    raw_segment-Returns : (seg : EntropySegment F) → AlwaysReturns (raw_segment api en req seg)
    unfolding raw_segment
    raw_segment-Returns seg =
        AlwaysReturns-bind
          (upload_segment-Returns (chunk_source en req) (segment_chunks en req seg)
            (segment_chunks-Honest en req seg room))
          λ (n, segs). record { run = λ s. (_, s, refl) }

    patched-Returns :
        (seg : EntropySegment F) (p : Option (Bytes × Bytes))
        → AlwaysReturns (patched api en req seg p)
    unfolding patched patch_segment
    patched-Returns seg none = raw_segment-Returns seg
    patched-Returns seg (some (dict, patch)) =
        AlwaysReturns-bind (ensure_blob-Returns dict (en.hash dict) refl) λ m.
          AlwaysReturns-bind (ensure_blob-Returns patch (en.hash patch) refl)
            λ n. record { run = λ s. (_, s, refl) }

    ingest_segment-Returns :
        (seg : EntropySegment F) (mode : SegmentMode)
        → AlwaysReturns (ingest_segment api en req seg mode)
    unfolding ingest_segment high_segment
    ingest_segment-Returns seg low = raw_segment-Returns seg
    ingest_segment-Returns seg mid = raw_segment-Returns seg
    ingest_segment-Returns seg high =
        AlwaysReturns-bind
          (answer _ (λ s.
            compress_with en.zstd (slice (chunk_source en req) seg.start seg.end) _ compresses))
          λ p. patched-Returns seg p

    ingest_segments-Returns :
        (segs : List (EntropySegment F)) → AlwaysReturns (ingest_segments api en req segs)
    unfolding ingest_segments
    ingest_segments-Returns [] = record { run = λ s. (_, s, refl) }
    ingest_segments-Returns (seg ∷ segs) =
        AlwaysReturns-bind (ingest_segment-Returns seg seg.mode) λ p.
          AlwaysReturns-bind (ingest_segments-Returns segs) λ q. record { run = λ s. (_, s, refl) }

    pub ingest_omni_file-Returns : AlwaysReturns (ingest_omni_file api en req)
    unfolding ingest_omni_file
    ingest_omni_file-Returns = AlwaysReturns-bind (ingest_segments-Returns _) λ p.
        AlwaysReturns-bind (ensure_blob-Returns (manifest_v3 en req p.segments) _ refl)
          λ n. record { run = λ s. (_, s, refl) }
