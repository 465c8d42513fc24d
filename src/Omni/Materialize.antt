-- ===== src/Omni/Materialize.antt =====
-- zeno_client/omni_ingest.py: `materialize_from_manifest_v3`, which writes a file from the blobs that
-- its manifest names. What is written before an error stays written; directories are not modelled.
use zeno_plugin.Prelude.{ℕ, max, Option, none, some, [], ◌++◌, if◌then◌else◌}
use zeno_plugin.Prelude.Text.{Text, codes, text_eq}
use zeno_plugin.Prelude.Result.{ok, err}
use zeno_plugin.Prelude.Int.{ℤ, pos, negsuc}
use zeno_plugin.Prelude.Action.{Action, pure, raise, ◌>>=◌, ◌>>◌}
use zeno_plugin.Chunking.{Bytes}
use zeno_plugin.Manifest.{schema_v3, clean, num}
use zeno_plugin.Manifest.Value.{
  Json, str, arr, obj, Items, nil, item, Fields, get, or_default, Python, int_of,
}
use zeno_plugin.Client.{Api}
use zeno_plugin.Omni.Patch.{Zstd}

-- The server, and the file at `out_path`: `none` while there is none.
pub record Site (S : Type 0) : Type 0 where
  pub server : S
  pub out : Option Bytes

abbrev pub written : Option Bytes → Bytes
written none = []
written (some b) = b

-- `max(1, i)`
abbrev pub at_least_one : ℤ → ℕ
at_least_one (pos n) = max 1 n
at_least_one (negsuc n) = 1

-- the exception of `int(v)`
abbrev pub int_error : Json → Text
int_error (str s) = codes "ValueError"
int_error _ = codes "TypeError"

module _ {S A : Type 0} where
  abbrev pub at_server : Action Text S A → Action Text (Site S) A
  at_server m s = let (r, t) = m s.server in (r, record s { server = t })

module _ {S : Type 0} where
  abbrev pub write : Bytes → Action Text (Site S) (Unit {0})
  write b s = (ok tt, record s { out = some (written s.out ++ b) })

  -- `out.open("wb")`
  abbrev pub truncate : Action Text (Site S) (Unit {0})
  truncate s = (ok tt, record s { out = some [] })

module _ {S : Type 0} (api : Api S) (py : Python) (zstd : Option Zstd) where
  unfoldable pub write_raw : Fields → Action Text (Site S) (Unit {0})
  write_raw seg = do b ← at_server (api.get_blob_bytes (clean py (get (codes "hash") seg))); write b

  abbrev pub read_int : Json → Action Text (Site S) ℤ
  read_int v s = (elim (int_of py v) [ none ↦ err (int_error v) | some i ↦ ok i ], s)

  unfoldable pub write_with : Zstd → Fields → Action Text (Site S) (Unit {0})
  write_with z seg = do
    size ← read_int (or_default (get (codes "uncompressed_size") seg) (num 0))
    dict ← at_server (api.get_blob_bytes (clean py (get (codes "dict_hash") seg)))
    patch ← at_server (api.get_blob_bytes (clean py (get (codes "patch_hash") seg)))
    b ← λ s. (z.decompress dict patch (at_least_one size), s)
    write b

  abbrev pub write_patch : Option Zstd → Fields → Action Text (Site S) (Unit {0})
  write_patch none seg = raise (codes "RuntimeError")
  write_patch (some z) seg = write_with z seg

  unfoldable pub write_segment : Fields → Action Text (Site S) (Unit {0})
  write_segment seg =
      let kind = clean py (get (codes "kind") seg) in
      if text_eq kind (codes "raw_chunk")
      then write_raw seg
      else if text_eq kind (codes "zstd_dict_patch")
      then write_patch zstd seg
      else raise (codes "ValueError")

  unfoldable pub write_segments : Items → Action Text (Site S) (Unit {0})
  write_segments nil = pure tt
  write_segments (item (obj seg) rest) = do write_segment seg; write_segments rest
  write_segments (item _ rest) = raise (codes "AttributeError")

  -- The loop over `manifest.get("segments") or []`: the elements of a text, and the keys of a
  -- dict, are texts.
  abbrev pub write_listed : Json → Action Text (Site S) (Unit {0})
  write_listed (arr items) = write_segments items
  write_listed (str s) = raise (codes "AttributeError")
  write_listed (obj fs) = raise (codes "AttributeError")
  write_listed _ = raise (codes "TypeError")

  unfoldable pub materialize_from_manifest_v3 : Fields → Action Text (Site S) (Unit {0})
  materialize_from_manifest_v3 manifest =
      if text_eq (clean py (get (codes "schema") manifest)) schema_v3
      then (do truncate; write_listed (or_default (get (codes "segments") manifest) (arr nil)))
      else raise (codes "ValueError")
