-- ===== src/Client/Laws.antt =====
-- What the model relies on of the server: blobs stay, an upload that succeeds is stored, and only
-- `register_version` adds a registration, which is the one that it was asked for.
use zeno_plugin.Prelude.{◌≡◌, ◌⊎◌, Bool, true}
use zeno_plugin.Prelude.Text.{Text}
use zeno_plugin.Prelude.Result.{ok}
use zeno_plugin.Chunking.{Bytes}
use zeno_plugin.Client.{Api, Registration}

pub record View (S : Type 0) : Type 1 where
  pub Has : Text → S → Type 0
  pub Registered : Registration → S → Type 0

module _ {S : Type 0} (view : View S) where
  abbrev pub KeepsBlobs : S → S → Type 0
  KeepsBlobs s s' = (h : Text) → view.Has h s → view.Has h s'

  abbrev pub AddsNone : S → S → Type 0
  AddsNone s s' = (x : Registration) → view.Registered x s' → view.Registered x s

  pub record Lawful (api : Api S) (hash : Bytes → Text) : Type 0 where
    pub exists_keeps :
        (h : Text) (s : S)
        → KeepsBlobs s (api.blob_exists h s).1 × AddsNone s (api.blob_exists h s).1
    pub exists_true :
        (h : Text) (s : S) → (api.blob_exists h s).0 ≡ ok true → view.Has h (api.blob_exists h s).1
    pub upload_keeps :
        (b : Bytes) (h : Text) (s : S)
        → KeepsBlobs s (api.upload b h s).1 × AddsNone s (api.upload b h s).1
    -- the server refuses a blob that has another hash
    pub upload_stores :
        (b : Bytes) (h : Text) (s : S)
        → hash b ≡ h
        → (api.upload b h s).0 ≡ ok tt
        → view.Has h (api.upload b h s).1
    pub resolve_keeps :
        (f : Text) (s : S)
        → KeepsBlobs s (api.resolve_storage f s).1 × AddsNone s (api.resolve_storage f s).1
    pub get_keeps :
        (h : Text) (s : S)
        → KeepsBlobs s (api.get_blob_bytes h s).1 × AddsNone s (api.get_blob_bytes h s).1
    pub latest_keeps :
        (p a r k : Text) (s : S)
        → KeepsBlobs s (api.latest_content_id p a r k s).1
          × AddsNone s (api.latest_content_id p a r k s).1
    pub register_keeps : (r : Registration) (s : S) → KeepsBlobs s (api.register_version r s).1
    pub register_adds :
        (r x : Registration) (s : S)
        → view.Registered x (api.register_version r s).1
        → (x ≡ r) ⊎ view.Registered x s

  -- A server that can be reached: it answers, takes what has the hash that it comes with, and
  -- returns a blob that is there as it was stored.
  pub record Serves (api : Api S) (hash : Bytes → Text) : Type 0 where
    pub exists_answers : (h : Text) (s : S) → (b : Bool) × ((api.blob_exists h s).0 ≡ ok b)
    pub upload_taken : (b : Bytes) (h : Text) (s : S) → hash b ≡ h → (api.upload b h s).0 ≡ ok tt
    pub get_returns :
        (h : Text) (s : S)
        → view.Has h s
        → (b : Bytes) × ((api.get_blob_bytes h s).0 ≡ ok b) × (hash b ≡ h)
