-- ===== src/Tests/Orphans.antt =====
-- A patch of a file whose parent has no content id.
use zeno_plugin.Prelude.{ℕ, ◌≡◌, refl, none, some, List, [], ◌∷◌, ◌++◌}
use zeno_plugin.Prelude.Text.{text_eq, strip, lower}
use zeno_plugin.Prelude.Result.{ok}
use zeno_plugin.Prelude.Action.{◌>>=◌}
use zeno_plugin.Prelude.Int.{pos}
use zeno_plugin.Manifest.{ManifestSegment, zstd_dict_patch, try_parse_manifest}
use zeno_plugin.Manifest.Value.{Python}
use zeno_plugin.Entropy.{EntropySegment, high}
use zeno_plugin.Client.{ensure_blob}
use zeno_plugin.Omni.{IngestRequest, Progress, manifest_json, manifest_v3, patch_segment}
use zeno_plugin.Omni.Orphan.{try_parse_manifest-orphan}
use zeno_plugin.Tests.Servers.{Server, api}
use zeno_plugin.Tests.Ingests.{engine, no_codec, scene_ingest, empty}

abbrev scene : IngestRequest ℕ
scene = record scene_ingest { parent_content_id = none }

abbrev last_stretch : EntropySegment ℕ
last_stretch = record { start = 4; end = 6; mode = high; entropy = 1 }

abbrev patched_segments : List ManifestSegment
patched_segments = zstd_dict_patch [] (pos 4) (pos 6) (20010 ∷ []) (21542 ∷ []) 2 2 ∷ []

abbrev reader : Python
reader = record no_codec {
  loads = λ _. some (manifest_json (engine no_codec) scene patched_segments);
}

abbrev progress : Progress
progress = record {
  uploaded_chunks = 0;
  uploaded_aux_blobs = 2;
  chunks = [];
  segments = patched_segments;
}

abbrev blobs_sent : Server
blobs_sent = record empty { blobs = (5 ∷ 5 ∷ []) ∷ (9 ∷ []) ∷ [] }

patch_sent :
    patch_segment api (engine reader) scene last_stretch (9 ∷ []) (5 ∷ 5 ∷ []) empty
    ≡ (ok progress, blobs_sent)
unfolding patch_segment ensure_blob ◌>>=◌ text_eq strip lower
patch_sent = refl

try_parse_manifest-orphan_example :
    try_parse_manifest reader (manifest_v3 (engine reader) scene ([] ++ (patched_segments ++ [])))
    ≡ none
unfolding strip
try_parse_manifest-orphan_example =
    try_parse_manifest-orphan api (engine reader) scene last_stretch (9 ∷ []) (5 ∷ 5 ∷ []) empty
      blobs_sent progress [] [] refl patch_sent refl
