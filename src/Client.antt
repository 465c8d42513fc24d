-- ===== src/Client.antt =====
-- The calls of `ZenoClient` (zeno_client/client.py) that publishing and the omni ingest make, as the
-- parameter `Api`: what they do to the server's state is not known here. Client/Laws says what is
-- relied on of them, and Client/Stored proves what each keeps and stores.
pub mod Laws
pub mod Stored
use zeno_plugin.Prelude.{ℕ, Bool, Option, if◌then◌else◌}
use zeno_plugin.Prelude.Text.{Text}
use zeno_plugin.Prelude.Action.{Action, pure, ◌>>=◌, ◌>>◌}
use zeno_plugin.Chunking.{Bytes}
use zeno_plugin.Manifest.Value.{Json}

pub record StorageMeta : Type 0 where
  pub strategy : Text
  pub reason : Text
  pub algorithm_version : Text

-- `metadata["dedup_artifact"]` of a version that is delivered raw and stored in canonical form.
pub record DedupArtifact : Type 0 where
  pub content_id : Text
  pub dcc_canonical : Bool
  pub dcc : Text

-- The arguments of `register_version`.
pub record Registration : Type 0 where
  pub project : Text
  pub asset : Text
  pub representation : Text
  pub version : Text
  pub content_id : Text
  pub filename : Text
  pub size : ℕ
  pub storage : StorageMeta
  pub dedup : Option DedupArtifact
  pub pipeline_stage : Text
  pub task_id : Option Text

-- The calls of `ZenoClient`; an error is the name of the exception's class.
pub record Api (S : Type 0) : Type 0 where
  pub blob_exists : Text → Action Text S Bool
  pub upload : Bytes → Text → Action Text S (Unit {0})
  pub register_version : Registration → Action Text S Json
  pub resolve_storage : Text → Action Text S Json
  pub get_blob_bytes : Text → Action Text S Bytes
  pub latest_content_id : Text → Text → Text → Text → Action Text S (Option Text)

module _ {S : Type 0} (api : Api S) where
  -- The blob goes up unless the server has it; the answer is the number of uploads.
  unfoldable pub ensure_blob : Bytes → Text → Action Text S ℕ
  ensure_blob body h = do
    there ← api.blob_exists h
    if there then pure 0 else (do api.upload body h; pure 1)
