-- ===== src/Omni.antt =====
-- zeno_client/omni_ingest.py: the stretches of a file of low and middle entropy are cut into chunks,
-- those of high entropy are sent as a patch of the parent version where one can be made. The
-- manifest lists them in order, and from it the file is put together again (Omni/Materialize).
-- What ingest calls beside the server is the parameter `Engine`: the semantic anchors are those of
-- maya/canonicalize.py, `canonical` of a parent is the answer of zeno_client/dcc_registry.py.
pub mod Patch
pub mod Materialize
pub mod Restored
pub mod Segments
pub mod Ingested
pub mod Returns
pub mod Written
pub mod RoundTrip
pub mod Orphan
use zeno_plugin.Prelude.{
  ℕ, ◌+◌, ◌*◌, min, Bool, true, false, ◌&&◌, Option, none, some, List, [], ◌∷◌, ◌++◌, if◌then◌else◌,
  length, slice, select, is_empty, ltb, leb,
}
use zeno_plugin.Prelude.Text.{Text, codes, text_eq, strip, lower}
use zeno_plugin.Prelude.Result.{Result, ok, err}
use zeno_plugin.Prelude.Int.{ℤ, pos}
use zeno_plugin.Prelude.Action.{Action, pure, ◌>>=◌}
use zeno_plugin.Chunking.{Bytes, ChunkingConfig, Chunk, iter_chunks_in_range}
use zeno_plugin.Manifest.{
  ManifestSegment, raw_chunk, zstd_dict_patch, num, payload_v3, build_manifest_v3,
}
use zeno_plugin.Manifest.Value.{
  Json, bool, int, str, obj, Items, nil, item, Fields, end, field, Python,
}
use zeno_plugin.Canonical.{is_on}
use zeno_plugin.Entropy.{
  FloatOps, SegmentMode, low, high, mid, EntropyConfig, EntropySegment, scan_entropy_segments,
}
use zeno_plugin.Client.{Api, ensure_blob}
use zeno_plugin.Omni.Patch.{Zstd, high_entropy_patch}

-- The literals 4.9 and 7.2, and a float in JSON.
pub record Engine (F : Type 0) : Type 0 where
  pub python : Python
  pub gear : ℕ → ℕ
  pub hash : Bytes → Text
  pub zstd : Option Zstd
  pub floats : FloatOps F
  pub default_low : F
  pub default_high : F
  pub number : F → Json
  pub semantic_anchors : Bytes → Result Text (List ℕ)
  pub forced_cuts_flag : Option Text

-- The file at `parent_local_path`, where one is given and exists.
pub record ParentFile : Type 0 where
  pub content : Bytes
  pub canonical : Result Text (Option Bytes)

pub record IngestRequest (F : Type 0) : Type 0 where
  pub content : Bytes
  pub filename : Text
  pub chunking : ChunkingConfig
  pub entropy : Option (EntropyConfig F)
  pub parent_content_id : Option Text
  pub parent : Option ParentFile
  pub canonical_bytes : Option Bytes
  pub dcc : Option Text

pub record OmniIngestResult : Type 0 where
  pub manifest_id : Text
  pub manifest_bytes : Bytes
  pub whole_file_blake3 : Text
  pub chunks : List Chunk
  pub uploaded_chunks : ℕ
  pub uploaded_aux_blobs : ℕ
  pub segments : List ManifestSegment
  pub dcc_canonical : Bool

-- The counters and the lists that the loop over the segments fills.
pub record Progress : Type 0 where
  pub uploaded_chunks : ℕ
  pub uploaded_aux_blobs : ℕ
  pub chunks : List Chunk
  pub segments : List ManifestSegment

abbrev pub no_progress : Progress
no_progress = record { uploaded_chunks = 0; uploaded_aux_blobs = 0; chunks = []; segments = [] }

abbrev pub joined : Progress → Progress → Progress
joined p q = record {
  uploaded_chunks = p.uploaded_chunks + q.uploaded_chunks;
  uploaded_aux_blobs = p.uploaded_aux_blobs + q.uploaded_aux_blobs;
  chunks = p.chunks ++ q.chunks;
  segments = p.segments ++ q.segments;
}

-- `t or ""`
abbrev pub or_empty : Option Text → Text
or_empty none = []
or_empty (some t) = t

abbrev pub is_some : Option Bytes → Bool
is_some none = false
is_some (some b) = true

abbrev pub or_raw : Bytes → Option Bytes → Bytes
or_raw raw none = raw
or_raw raw (some b) = b

-- The parent is canonicalized where the file is; where that raises, it is taken as it is.
unfoldable pub parent_bytes : Bool → Option ParentFile → Option Bytes
parent_bytes canonical none = none
parent_bytes false (some p) = some p.content
parent_bytes true (some p) = elim p.canonical [
  | ok b ↦ some (or_raw p.content b)
  | err e ↦ some p.content
]

-- The part of the parent at the place of a segment.
unfoldable pub parent_segment : ℕ → ℕ → Option Bytes → Option Bytes
parent_segment start stop none = none
parent_segment start stop (some parent) =
    if ltb start (length parent) then some (slice parent start (min stop (length parent))) else none

abbrev pub raw_fields : Text → ℕ → Fields
raw_fields h n =
    field (codes "hash") (str h)
      (field (codes "kind") (str (codes "raw_chunk")) (field (codes "size") (num n) end))

abbrev pub patch_fields : Text → ℤ → ℤ → Text → Text → ℕ → ℕ → Fields
patch_fields parent a b dict_hash patch_hash patch_size n =
    field (codes "dict_hash") (str dict_hash) (
      field (codes "kind") (str (codes "zstd_dict_patch")) (
        field (codes "parent_content_id") (str parent) (
          field (codes "patch_hash") (str patch_hash) (
            field (codes "patch_size") (num patch_size) (
              field (codes "range_end") (int b) (
                field (codes "range_start") (int a)
                  (field (codes "uncompressed_size") (num n) end)))))))

abbrev pub segment_fields : ManifestSegment → Fields
segment_fields (raw_chunk h n) = raw_fields h n
segment_fields (zstd_dict_patch parent a b dict_hash patch_hash patch_size n) =
    patch_fields parent a b dict_hash patch_hash patch_size n

unfoldable pub segments_json : List ManifestSegment → Items
segments_json [] = nil
segments_json (seg ∷ segs) = item (obj (segment_fields seg)) (segments_json segs)

module _ {F : Type 0} (en : Engine F) where
  abbrev pub settings : Option (EntropyConfig F) → EntropyConfig F
  settings none = record {
    window_size = 16 * 1024;
    low_threshold = en.default_low;
    high_threshold = en.default_high;
  }
  settings (some cfg) = cfg

  abbrev pub chunk_source : IngestRequest F → Bytes
  chunk_source req = or_raw req.content req.canonical_bytes

  abbrev pub flag_or_on : Option Text → Text
  flag_or_on none = codes "1"
  flag_or_on (some v) = v

  abbrev pub anchors_of : Result Text (List ℕ) → List ℕ
  anchors_of (ok cuts) = cuts
  anchors_of (err e) = []

  -- Maya files are cut at their semantic anchors too, unless that is switched off.
  unfoldable pub forced_cuts : IngestRequest F → List ℕ
  forced_cuts req =
      if is_some req.canonical_bytes
        && text_eq (lower (strip (or_empty req.dcc))) (codes "maya")
        && is_on (flag_or_on en.forced_cuts_flag)
      then anchors_of (en.semantic_anchors (chunk_source req))
      else []

  -- The chunks of one segment, at their offsets in the whole file.
  unfoldable pub segment_chunks : IngestRequest F → EntropySegment F → List Chunk
  segment_chunks req seg =
      let bytes = slice (chunk_source req) seg.start seg.end in
      let cuts = select (λ fc. ltb seg.start fc && leb fc seg.end) (forced_cuts req) in
      iter_chunks_in_range en.gear en.hash req.chunking cuts bytes 0 (length bytes) seg.start

  abbrev pub omni_json : IngestRequest F → Json
  omni_json req =
      let cfg = settings req.entropy in
      obj (
        field (codes "dcc") (str (or_empty req.dcc)) (
          field (codes "dcc_canonical") (bool (is_some req.canonical_bytes)) (
            field (codes "engine_version") (str (codes "omni-v2")) (
              field (codes "entropy_thresholds")
                (obj (
                  field (codes "high") (en.number cfg.high_threshold)
                    (field (codes "low") (en.number cfg.low_threshold) end)))
                (field (codes "source_blake3") (str (en.hash req.content)) (
                  field (codes "source_size_bytes") (num (length req.content))
                    (field (codes "window_size") (num cfg.window_size) end)))))))

  -- The manifest before it is written as JSON.
  abbrev pub manifest_json : IngestRequest F → List ManifestSegment → Json
  manifest_json req segs =
      payload_v3 req.filename (length (chunk_source req)) (en.hash (chunk_source req)) req.chunking
        (segments_json segs) (some (omni_json req))

  unfoldable pub manifest_v3 : IngestRequest F → List ManifestSegment → Bytes
  manifest_v3 req segs =
      build_manifest_v3 en.python req.filename (length (chunk_source req))
        (en.hash (chunk_source req)) req.chunking (segments_json segs) (some (omni_json req))

module _ {S F : Type 0} (api : Api S) (en : Engine F) where
  -- The uploads of a segment's chunks, and their entries of the manifest.
  unfoldable pub upload_segment : Bytes → List Chunk → Action Text S (ℕ × List ManifestSegment)
  upload_segment source [] = pure (0, [])
  upload_segment source (ch ∷ chs) = do
    m ← ensure_blob api (slice source ch.offset (ch.offset + ch.size)) ch.content_hash
    (n, segs) ← upload_segment source chs
    pure (m + n, raw_chunk ch.content_hash ch.size ∷ segs)

  unfoldable pub raw_segment : IngestRequest F → EntropySegment F → Action Text S Progress
  raw_segment req seg =
      let chunks = segment_chunks en req seg in
      do
        (n, segs) ← upload_segment (chunk_source en req) chunks
        pure
            record { uploaded_chunks = n; uploaded_aux_blobs = 0; chunks = chunks; segments = segs }

  unfoldable pub patch_segment :
      IngestRequest F → EntropySegment F → Bytes → Bytes → Action Text S Progress
  patch_segment req seg dict_blob patch_blob = do
    m ← ensure_blob api dict_blob (en.hash dict_blob)
    n ← ensure_blob api patch_blob (en.hash patch_blob)
    pure record {
      uploaded_chunks = 0;
      uploaded_aux_blobs = m + n;
      chunks = [];
      segments =
          zstd_dict_patch (lower (strip (or_empty req.parent_content_id))) (pos seg.start)
            (pos seg.end) (en.hash dict_blob) (en.hash patch_blob) (length patch_blob)
            (length (slice (chunk_source en req) seg.start seg.end))
          ∷ [];
    }

  unfoldable pub patched :
      IngestRequest F → EntropySegment F → Option (Bytes × Bytes) → Action Text S Progress
  patched req seg none = raw_segment req seg
  patched req seg (some (dict_blob, patch_blob)) = patch_segment req seg dict_blob patch_blob

  unfoldable pub high_segment : IngestRequest F → EntropySegment F → Action Text S Progress
  high_segment req seg =
      let parent = parent_bytes (is_some req.canonical_bytes) req.parent in
      let new = slice (chunk_source en req) seg.start seg.end in
      do
        payload ← λ s. (high_entropy_patch en.zstd new (parent_segment seg.start seg.end parent), s)
        patched req seg payload

  unfoldable pub ingest_segment :
      IngestRequest F → EntropySegment F → SegmentMode → Action Text S Progress
  ingest_segment req seg low = raw_segment req seg
  ingest_segment req seg mid = raw_segment req seg
  ingest_segment req seg high = high_segment req seg

  unfoldable pub ingest_segments :
      IngestRequest F → List (EntropySegment F) → Action Text S Progress
  ingest_segments req [] = pure no_progress
  ingest_segments req (seg ∷ segs) = do
    p ← ingest_segment req seg seg.mode
    q ← ingest_segments req segs
    pure (joined p q)

  abbrev pub ingest_result : IngestRequest F → Progress → OmniIngestResult
  ingest_result req p = record {
    manifest_id = en.hash (manifest_v3 en req p.segments);
    manifest_bytes = manifest_v3 en req p.segments;
    whole_file_blake3 = en.hash (chunk_source en req);
    chunks = p.chunks;
    uploaded_chunks = p.uploaded_chunks;
    uploaded_aux_blobs = p.uploaded_aux_blobs;
    segments = p.segments;
    dcc_canonical = is_some req.canonical_bytes;
  }

  unfoldable pub ingest_omni_file : IngestRequest F → Action Text S OmniIngestResult
  ingest_omni_file req =
      let segs = scan_entropy_segments en.floats (settings en req.entropy) (chunk_source en req) in
      do
        p ← ingest_segments req segs
        _ ←
            ensure_blob api (manifest_v3 en req p.segments)
              (en.hash (manifest_v3 en req p.segments))
        pure (ingest_result req p)
