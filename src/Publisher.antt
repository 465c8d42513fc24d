-- ===== src/Publisher.antt =====
-- zeno_client/publisher.py: a file goes to the server as one blob, as chunks and a manifest, or by the
-- omni ingest, and a version is registered for it. The server is the parameter `Api` (Client.antt).
-- `canonicalize_file` is that of zeno_client/dcc_registry.py, which Registry.antt models.
pub mod Delivered
pub mod Whole
pub mod Published
use zeno_plugin.Prelude.{
  ℕ, ◌+◌, Bool, true, false, not, ◌&&◌, ◌||◌, Option, none, some, List, [], ◌∷◌, ◌++◌,
  if◌then◌else◌, length, slice, is_empty, ◌==◌,
}
use zeno_plugin.Prelude.Text.{Text, codes, text_eq, strip, lower}
use zeno_plugin.Prelude.Result.{Result, ok, err}
use zeno_plugin.Prelude.Action.{Action, pure, ◌>>=◌, ◌>>◌}
use zeno_plugin.Chunking.{Bytes, ChunkingConfig, Chunk, iter_chunks}
use zeno_plugin.Manifest.Value.{Json, str, obj, Fields, get, or_default, Python, text_of}
use zeno_plugin.Manifest.{build_manifest_v2}
use zeno_plugin.Canonical.{is_on}
use zeno_plugin.Entropy.{EntropyConfig}
use zeno_plugin.Client.{StorageMeta, DedupArtifact, Registration, Api, ensure_blob}
use zeno_plugin.Omni.{
  Engine, ParentFile, IngestRequest, OmniIngestResult, or_empty, is_some, ingest_omni_file,
}

-- The file, and the arguments of `publish_chunked_file`.
pub record PublishRequest (F : Type 0) : Type 0 where
  pub content : Bytes
  pub name : Text
  pub suffix : Text
  pub filename : Option Text
  pub project : Text
  pub asset : Text
  pub representation : Text
  pub version : Text
  pub chunking : ChunkingConfig
  pub pipeline_stage : Text
  pub task_id : Option Text
  pub strategy : Option Text
  pub use_omni : Option Bool
  pub parent_content_id : Option Text
  pub parent : Option ParentFile
  pub entropy : Option (EntropyConfig F)
  pub dcc : Option Text

pub record PublishResult : Type 0 where
  pub manifest_id : Text
  pub whole_file_blake3 : Text
  pub chunk_count : ℕ
  pub uploaded_chunks : ℕ
  pub registered_version : Json
  pub strategy : Text
  pub strategy_reason : Text
  pub delivery_content_id : Option Text
  pub dedup_manifest_id : Option Text

-- `s.lstrip(".")`
abbrev pub lstrip_dots : Text → Text
lstrip_dots [] = []
lstrip_dots (c ∷ s) = if c == 46 then lstrip_dots s else c ∷ s

module _ {F : Type 0} where
  -- The key of a representation is the file's extension, if it has one.
  unfoldable pub representation_key : PublishRequest F → Text
  representation_key req =
      let extension = lower (lstrip_dots req.suffix) in
      if is_empty extension then lstrip_dots (lower (strip req.representation)) else extension

  abbrev pub file_name : PublishRequest F → Text
  file_name req = elim req.filename [
    | none ↦ req.name
    | some f ↦ if is_empty f then req.name else f
  ]

abbrev pub is_strategy : Text → Bool
is_strategy s = text_eq s (codes "chunked") || text_eq s (codes "whole")

abbrev pub strategy_text : Json → Option Text
strategy_text (str s) = if is_strategy s then some s else none
strategy_text _ = none

module _ (py : Python) where
  abbrev pub no_policy : StorageMeta
  no_policy = record {
    strategy = codes "chunked";
    reason = codes "no usable storage policy; using chunked";
    algorithm_version = [];
  }

  abbrev pub policy : Fields → StorageMeta
  policy decision = elim (strategy_text (get (codes "strategy") decision)) [
    | none ↦ no_policy
    | some s ↦ record {
      strategy = s;
      reason = text_of py (or_default (get (codes "reason") decision) (str []));
      algorithm_version =
          text_of py (or_default (get (codes "algorithm_version") decision) (str []));
    }
  ]

  abbrev pub decided : Result Text Json → StorageMeta
  decided (err e) = record {
    strategy = codes "chunked";
    reason = codes "storage policy unavailable (" ++ e ++ codes "); using chunked";
    algorithm_version = [];
  }
  decided (ok (obj decision)) = policy decision
  decided (ok _) = no_policy

module _ {S F : Type 0} (api : Api S) (en : Engine F) (omni_flag : Option Text)
    (canonicalize_file : PublishRequest F → Result Text (Option Bytes)) where
  -- Never raises: without an answer, the file is chunked.
  unfoldable pub resolve_strategy : Text → Action Text S StorageMeta
  resolve_strategy filename s =
      let (answer, s') = api.resolve_storage filename s in (ok (decided en.python answer), s')

  unfoldable pub choose_strategy : PublishRequest F → Action Text S StorageMeta
  choose_strategy req =
      let asked = resolve_strategy (file_name req) in
      elim req.strategy [
        | none ↦ asked
        | some s ↦
            if is_strategy s
            then pure record {
              strategy = s;
              reason = codes "requested by caller";
              algorithm_version = [];
            }
            else asked
      ]

  abbrev pub registration :
      PublishRequest F → StorageMeta → Text → Option DedupArtifact → Registration
  registration req meta content_id dedup = record {
    project = req.project;
    asset = req.asset;
    representation = representation_key req;
    version = req.version;
    content_id = content_id;
    filename = file_name req;
    size = length req.content;
    storage = meta;
    dedup = dedup;
    pipeline_stage = req.pipeline_stage;
    task_id = req.task_id;
  }

  unfoldable pub publish_whole_file : PublishRequest F → StorageMeta → Action Text S PublishResult
  publish_whole_file req meta =
      let whole = en.hash req.content in
      do
        uploaded ← ensure_blob api req.content whole
        reg ← api.register_version (registration req meta whole none)
        pure record {
          manifest_id = whole;
          whole_file_blake3 = whole;
          chunk_count = 1;
          uploaded_chunks = uploaded;
          registered_version = reg;
          strategy = codes "whole";
          strategy_reason = meta.reason;
          delivery_content_id = none;
          dedup_manifest_id = none;
        }

  -- Each chunk is read again from the file.
  unfoldable pub upload_chunks : Bytes → List Chunk → Action Text S ℕ
  upload_chunks file [] = pure 0
  upload_chunks file (ch ∷ chs) = do
    m ← ensure_blob api (slice file ch.offset (ch.offset + ch.size)) ch.content_hash
    n ← upload_chunks file chs
    pure (m + n)

  abbrev pub manifest_of : PublishRequest F → List Chunk → Bytes
  manifest_of req chunks =
      build_manifest_v2 en.python (file_name req) (length req.content) (en.hash req.content)
        req.chunking chunks

  unfoldable pub publish_chunks : PublishRequest F → StorageMeta → Action Text S PublishResult
  publish_chunks req meta =
      let chunks = iter_chunks en.gear en.hash req.chunking [] req.content in
      let mid = en.hash (manifest_of req chunks) in
      do
        uploaded ← upload_chunks req.content chunks
        api.upload (manifest_of req chunks) mid
        reg ← api.register_version (registration req meta mid none)
        pure record {
          manifest_id = mid;
          whole_file_blake3 = en.hash req.content;
          chunk_count = length chunks;
          uploaded_chunks = uploaded;
          registered_version = reg;
          strategy = codes "chunked";
          strategy_reason = meta.reason;
          delivery_content_id = none;
          dedup_manifest_id = none;
        }

  abbrev pub flag_or_off : Option Text → Text
  flag_or_off none = codes "0"
  flag_or_off (some v) = v

  unfoldable pub uses_omni : PublishRequest F → Bool
  uses_omni req = elim req.use_omni [ none ↦ is_on (flag_or_off omni_flag) | some b ↦ b ]

  -- The application is taken from the extension where it is not given.
  abbrev pub resolved_dcc : PublishRequest F → Option Bytes → Text
  resolved_dcc req canonical =
      if is_some canonical && is_empty (or_empty req.dcc)
      then lstrip_dots req.suffix
      else or_empty req.dcc

  unfoldable pub parent_of : PublishRequest F → Action Text S (Option Text)
  parent_of req = elim req.parent_content_id [
    | some cid ↦ pure (some cid)
    | none ↦ api.latest_content_id req.project req.asset (representation_key req) (codes "dedup")
  ]

  abbrev pub ingest_request : PublishRequest F → Option Bytes → Option Text → IngestRequest F
  ingest_request req canonical parent_content_id = record {
    content = req.content;
    filename = file_name req;
    chunking = req.chunking;
    entropy = req.entropy;
    parent_content_id = parent_content_id;
    parent = req.parent;
    canonical_bytes = canonical;
    dcc = if is_empty (resolved_dcc req canonical) then none else some (resolved_dcc req canonical);
  }

  abbrev pub omni_result :
      StorageMeta → OmniIngestResult → Json → Option Text → Option Text → PublishResult
  omni_result meta omni reg delivery dedup = record {
    manifest_id = omni.manifest_id;
    whole_file_blake3 = omni.whole_file_blake3;
    chunk_count = length omni.segments;
    uploaded_chunks = omni.uploaded_chunks + omni.uploaded_aux_blobs;
    registered_version = reg;
    strategy = codes "chunked";
    strategy_reason = meta.reason;
    delivery_content_id = delivery;
    dedup_manifest_id = dedup;
  }

  -- A file that has a canonical form is delivered raw beside the manifest of that form.
  unfoldable pub register_omni :
      PublishRequest F → StorageMeta → Option Bytes → OmniIngestResult → Action Text S PublishResult
  register_omni req meta none omni = do
    reg ← api.register_version (registration req meta omni.manifest_id none)
    pure (omni_result meta omni reg none none)
  register_omni req meta (some canonical) omni = do
    _ ← ensure_blob api req.content (en.hash req.content)
    reg ← api.register_version (
        registration req meta (en.hash req.content) (
          some record {
            content_id = omni.manifest_id;
            dcc_canonical = omni.dcc_canonical;
            dcc = resolved_dcc req (some canonical);
          }))
    pure (omni_result meta omni reg (some (en.hash req.content)) (some omni.manifest_id))

  unfoldable pub publish_omni :
      PublishRequest F → StorageMeta → Option Bytes → Action Text S PublishResult
  publish_omni req meta canonical = do
    parent ← parent_of req
    omni ← ingest_omni_file api en (ingest_request req canonical parent)
    register_omni req meta canonical omni

  -- The canonical form is for the omni chunker only, but making it may raise.
  unfoldable pub publish_canonical : PublishRequest F → StorageMeta → Action Text S PublishResult
  publish_canonical req meta = do
    canonical ← λ s. (canonicalize_file req, s)
    if uses_omni req then publish_omni req meta canonical else publish_chunks req meta

  unfoldable pub publish_chunked_file : PublishRequest F → Action Text S PublishResult
  publish_chunked_file req = do
    meta ← choose_strategy req
    if text_eq meta.strategy (codes "whole")
        then publish_whole_file req meta
        else publish_canonical req meta
