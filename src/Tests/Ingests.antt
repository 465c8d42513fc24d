-- ===== src/Tests/Ingests.antt =====
-- A file is ingested, written back, and published, on the server in memory.
use zeno_plugin.Prelude.{
  ℕ, ◌+◌, ◌≡◌, refl, sym, ap, ◌∙◌, ◌⊎◌, none, some, List, [], ◌∷◌, arith, ◌≤◌, max, min, length,
}
use zeno_plugin.Prelude.Text.{Text, codes, text_eq, strip, lower}
use zeno_plugin.Prelude.Result.{Result, ok, err}
use zeno_plugin.Prelude.Action.{Outcome, ◌>>=◌}
use zeno_plugin.Prelude.Int.{pos}
use zeno_plugin.Chunking.{Bytes, iter_chunks_in_range, range_loop, cut_at, find_cut, bit_length}
use zeno_plugin.Manifest.{ManifestSegment, raw_chunk, zstd_dict_patch, build_manifest_v3}
use zeno_plugin.Manifest.Value.{null, Python}
use zeno_plugin.Entropy.{
  scan_entropy_segments, scan_loop, merge_adjacent_segments, merge_from, shannon_entropy,
  classify_entropy,
}
use zeno_plugin.Client.{ensure_blob}
use zeno_plugin.Client.Stored.{Intact}
use zeno_plugin.Omni.{
  manifest_json, Engine, IngestRequest, OmniIngestResult, ingest_omni_file, ingest_segments,
  manifest_v3, ingest_segment, raw_segment, high_segment, segment_chunks, patched, patch_segment,
  upload_segment, forced_cuts, parent_segment, parent_bytes,
}
use zeno_plugin.Omni.Patch.{Zstd, high_entropy_patch, zstd_training_samples, pieces, sample_step}
use zeno_plugin.Omni.Patch.Payloads.{Inverts}
use zeno_plugin.Omni.Patch.Samples.{concat, AllSized, zstd_training_samples-Sized}
use zeno_plugin.Omni.Materialize.{Site}
use zeno_plugin.Omni.Ingested.{Ingested, ingest_omni_file-Ingested}
use zeno_plugin.Omni.Returns.{Compresses}
use zeno_plugin.Omni.RoundTrip.{WritesBack, materialize-ingest}
use zeno_plugin.Omni.Written.{Collision}
use zeno_plugin.Publisher.{PublishRequest, publish_chunked_file}
use zeno_plugin.Publisher.Delivered.{Delivered}
use zeno_plugin.Publisher.Published.{publish_chunked_file-Delivered}
use zeno_plugin.Tests.Stretches.{whole_numbers, settings}
use zeno_plugin.Tests.Servers.{digest, digest-IsClean, Server, view, api, api-Lawful, api-Serves}

-- It keeps what it compresses as it is.
abbrev pub plain : Zstd
plain = record {
  train_dictionary = λ _ _. some (9 ∷ []);
  compress = λ dict new. ok new;
  decompress = λ dict patch size. ok patch;
}

abbrev pub engine : Python → Engine ℕ
engine py = record {
  python = py;
  gear = λ b. b;
  hash = digest;
  zstd = some plain;
  floats = record whole_numbers { sub = λ m n. m + n };
  default_low = 0;
  default_high = 1;
  number = λ n. null;
  semantic_anchors = λ b. err (codes "ImportError");
  forced_cuts_flag = none;
}

abbrev pub no_codec : Python
no_codec = record { loads = λ _. none; dumps = λ _. []; render = λ _. []; int_of_text = λ _. none }

-- The last stretch is of high entropy, and is sent as a patch.
abbrev pub scene_ingest : IngestRequest ℕ
scene_ingest = record {
  content = 7 ∷ 1 ∷ 7 ∷ 1 ∷ 5 ∷ 5 ∷ [];
  filename = codes "a.blend";
  chunking = record { algo = codes "fastcdc"; avg = 2; min = 1; max = 2 };
  entropy = some settings;
  parent_content_id = some (codes "v1");
  parent = some (record { content = 7 ∷ 7 ∷ 2 ∷ 7 ∷ 3 ∷ 5 ∷ []; canonical = ok none });
  canonical_bytes = none;
  dcc = none;
}

abbrev pub empty : Server
empty = record { blobs = []; versions = [] }

abbrev stored : List ManifestSegment
stored =
    raw_chunk (20520 ∷ []) 2
    ∷ raw_chunk (20520 ∷ []) 2
    ∷ zstd_dict_patch (codes "v1") (pos 4) (pos 6) (20010 ∷ []) (21542 ∷ []) 2 2
    ∷ []

-- a codec that reads the one manifest that there is
abbrev codec : Python
codec = record no_codec { loads = λ _. some (manifest_json (engine no_codec) scene_ingest stored) }

abbrev segments_of : Result Text OmniIngestResult → List ManifestSegment
segments_of (ok r) = r.segments
segments_of (err e) = []

ingested : segments_of (ingest_omni_file api (engine codec) scene_ingest empty).0 ≡ stored
unfolding ingest_omni_file ingest_segments manifest_v3 ingest_segment build_manifest_v3 raw_segment
    high_segment segment_chunks patched patch_segment scan_entropy_segments ensure_blob ◌>>=◌
    scan_loop merge_adjacent_segments merge_from shannon_entropy classify_entropy upload_segment
    iter_chunks_in_range range_loop cut_at find_cut text_eq forced_cuts bit_length
    high_entropy_patch parent_segment parent_bytes zstd_training_samples pieces sample_step lower
    strip
ingested = refl

plain-Inverts : Inverts (some plain)
plain-Inverts dict new patch e = sym e

plain-Compresses : Compresses (some plain)
plain-Compresses dict new = (new, refl)

ingest_omni_file-Ingested_example :
    Outcome
      (Intact view)
      (Ingested view (engine codec) scene_ingest)
      (ingest_omni_file api (engine codec) scene_ingest empty).0
      (ingest_omni_file api (engine codec) scene_ingest empty).1
ingest_omni_file-Ingested_example =
    ingest_omni_file-Ingested view api (engine codec) api-Lawful plain-Inverts scene_ingest empty
      (omega arith) (omega arith) (λ x r. absurd r)

-- the blobs are there, and the file is not yet
abbrev later : Server → Site Server
later s = record { server = s; out = none }

codec_reads :
    (r : OmniIngestResult)
    → (ingest_omni_file api (engine codec) scene_ingest empty).0 ≡ ok r
    → codec.loads r.manifest_bytes ≡ some (manifest_json (engine codec) scene_ingest r.segments)
codec_reads r e =
    ap (λ segs. some (manifest_json (engine codec) scene_ingest segs))
      (sym ingested ∙ ap segments_of e)

materialize-ingest_example :
    (r : OmniIngestResult) × (s' : Server) × (ingest_omni_file api (engine codec) scene_ingest empty
      ≡ (ok r, s'))
    × (Collision digest ⊎ WritesBack api (engine codec) scene_ingest r (later s'))
materialize-ingest_example =
    materialize-ingest view api (engine codec) api-Lawful api-Serves plain-Inverts plain-Compresses
      digest-IsClean scene_ingest empty later (λ s k h. h) codec_reads (omega arith) (omega arith)
      (λ x r. absurd r)

abbrev parent : Bytes
parent = 1 ∷ 2 ∷ 3 ∷ []

zstd_training_samples-Sized_example :
    (concat (zstd_training_samples 4 parent) ≡ parent)
    × AllSized (max 1 4) (zstd_training_samples 4 parent)
    × (min 8 (length parent) ≤ length (zstd_training_samples 4 parent))
zstd_training_samples-Sized_example = zstd_training_samples-Sized 4 parent (omega arith)

abbrev scene_publish : PublishRequest ℕ
scene_publish = record {
  content = 7 ∷ 1 ∷ 7 ∷ 1 ∷ 5 ∷ 5 ∷ [];
  name = codes "a.blend";
  suffix = codes ".blend";
  filename = none;
  project = codes "p";
  asset = codes "a";
  representation = [];
  version = codes "next";
  chunking = record { algo = codes "fastcdc"; avg = 2; min = 1; max = 2 };
  pipeline_stage = [];
  task_id = none;
  strategy = none;
  use_omni = none;
  parent_content_id = none;
  parent = none;
  entropy = some settings;
  dcc = none;
}

publish_chunked_file-Delivered_example :
    Outcome
      (Intact view)
      (Delivered view api
        (engine codec)
        (some (codes "1"))
        (λ _. ok (some (7 ∷ 1 ∷ [])))
        scene_publish)
      (publish_chunked_file api
        (engine codec)
        (some (codes "1"))
        (λ _. ok (some (7 ∷ 1 ∷ [])))
        scene_publish
        empty).0
      (publish_chunked_file api
        (engine codec)
        (some (codes "1"))
        (λ _. ok (some (7 ∷ 1 ∷ [])))
        scene_publish
        empty).1
publish_chunked_file-Delivered_example =
    publish_chunked_file-Delivered view api (engine codec) api-Lawful plain-Inverts
      (some (codes "1")) (λ _. ok (some (7 ∷ 1 ∷ []))) scene_publish empty (omega arith)
      (omega arith) (λ x r. absurd r)
