-- ===== src/Manifest.antt =====
-- zeno_client/manifest.py: chunk manifests, built as JSON and parsed back. An exception of the
-- parser is a `ParseError`; `builtin` stands for those that Python's own operations raise.
pub mod Value
pub mod RoundTrip
use zeno_plugin.Prelude.{
  ℕ, ◌*◌, List, [], ◌∷◌, map, Bool, true, false, not, ◌&&◌, ◌||◌, Option, none, some, if◌then◌else◌,
  is_empty,
}
use zeno_plugin.Prelude.Text.{Text, codes, text_eq, strip, lower}
use zeno_plugin.Prelude.Result.{Result, ok, err, ◌>>=◌}
use zeno_plugin.Prelude.Int.{ℤ, pos, negsuc, is_negative, ltb_ℤ}
use zeno_plugin.Chunking.{Bytes, Chunk, ChunkingConfig}
use Value.{
  Json, null, int, str, arr, obj, Items, nil, item, Fields, end, field, or_default, get, Python,
  text_of, int_of,
}

abbrev pub schema_v1 : Text
schema_v1 = codes "chimera.manifest.v1"

abbrev pub schema_v2 : Text
schema_v2 = codes "chimera.manifest.v2"

abbrev pub schema_v3 : Text
schema_v3 = codes "chimera.manifest.v3"

pub record ManifestChunk : Type 0 where
  pub hash : Text
  pub size : ℕ

pub data ManifestSegment : Type 0 where
  raw_chunk : (hash : Text) → (size : ℕ) → ManifestSegment
  zstd_dict_patch :
      (parent_content_id : Text)
      → (range_start range_end : ℤ) → (dict_hash patch_hash : Text)
      → (patch_size uncompressed_size : ℕ) → ManifestSegment

-- `ChunkingConfig` as it stands in a manifest: integers that nothing has checked.
pub record ManifestChunking : Type 0 where
  pub algo : Text
  pub avg : ℤ
  pub min : ℤ
  pub max : ℤ

pub record ManifestV1 : Type 0 where
  pub schema : Text
  pub filename : Text
  pub size_bytes : ℤ
  pub whole_file_blake3 : Text
  pub chunking : ManifestChunking
  pub chunks : List ManifestChunk
  pub segments : Option (List ManifestSegment)
  pub hash_algo : Text

pub data ParseError : Type 0 where
  not_an_object unsupported_schema chunks_not_a_list chunk_not_an_object chunk_invalid : ParseError
  segments_not_a_list segment_not_an_object segment_invalid unsupported_segment_kind : ParseError
  builtin : ParseError

abbrev pub num : ℕ → Json
num n = int (pos n)

-- A Python dict has no order of its own: the keys stand in the order of `sort_keys=True`.
unfoldable pub chunking_json : ChunkingConfig → Json
chunking_json c = obj (
    field (codes "algo") (str c.algo) (
      field (codes "avg") (num c.avg)
        (field (codes "max") (num c.max) (field (codes "min") (num c.min) end))))

unfoldable pub chunks_json : List Chunk → Items
chunks_json [] = nil
chunks_json (c ∷ cs) =
    item (obj (field (codes "hash") (str c.content_hash) (field (codes "size") (num c.size) end)))
      (chunks_json cs)

unfoldable pub payload_v2 : Text → ℕ → Text → ChunkingConfig → List Chunk → Json
unfolding chunking_json chunks_json
payload_v2 filename size_bytes whole chunking chunks = obj (
    field (codes "chunking") (chunking_json chunking) (
      field (codes "chunks") (arr (chunks_json chunks)) (
        field (codes "filename") (str filename) (
          field (codes "hash_algo") (str (codes "blake3")) (
            field (codes "schema") (str schema_v2) (
              field (codes "size_bytes") (num size_bytes)
                (field (codes "whole_file_blake3") (str whole) end)))))))

-- `t or other`
abbrev pub first_text : Option Text → Text → Text
first_text none other = other
first_text (some t) other = if is_empty t then other else t

-- The older form names the digest a second time.
unfoldable pub payload_v1 : Text → ℕ → Text → ChunkingConfig → List Chunk → Json
unfolding chunking_json chunks_json
payload_v1 filename size_bytes whole chunking chunks = obj (
    field (codes "chunking") (chunking_json chunking) (
      field (codes "chunks") (arr (chunks_json chunks)) (
        field (codes "filename") (str filename) (
          field (codes "hash_algo") (str (codes "blake3")) (
            field (codes "schema") (str schema_v1) (
              field (codes "size_bytes") (num size_bytes) (
                field (codes "whole_file_blake3") (str whole)
                  (field (codes "whole_file_sha256") (str whole) end))))))))

abbrev pub omni_field : Option Json → Fields → Fields
omni_field none fs = fs
omni_field (some omni) fs = field (codes "omni") omni fs

unfoldable pub payload_v3 : Text → ℕ → Text → ChunkingConfig → Items → Option Json → Json
unfolding chunking_json
payload_v3 filename size_bytes whole chunking segments omni = obj (
    field (codes "chunking") (chunking_json chunking) (
      field (codes "filename") (str filename) (
        field (codes "hash_algo") (str (codes "blake3")) (
          omni_field omni (
            field (codes "schema") (str schema_v3) (
              field (codes "segments") (arr segments) (
                field (codes "size_bytes") (num size_bytes)
                  (field (codes "whole_file_blake3") (str whole) end))))))))

module _ (py : Python) where
  -- `none` where neither digest is given, and a ValueError is raised
  unfoldable pub build_manifest_v1 :
      Text → ℕ → Option Text → Option Text → ChunkingConfig → List Chunk → Option Bytes
  build_manifest_v1 filename size_bytes blake3 sha256 chunking chunks =
      let whole = lower (strip (first_text blake3 (first_text sha256 []))) in
      if is_empty whole
      then none
      else some (py.dumps (payload_v1 filename size_bytes whole chunking chunks))

  unfoldable pub build_manifest_v3 : Text → ℕ → Text → ChunkingConfig → Items → Option Json → Bytes
  build_manifest_v3 filename size_bytes whole chunking segments omni =
      py.dumps (payload_v3 filename size_bytes whole chunking segments omni)

  unfoldable pub build_manifest_v2 : Text → ℕ → Text → ChunkingConfig → List Chunk → Bytes
  build_manifest_v2 filename size_bytes whole chunking chunks =
      py.dumps (payload_v2 filename size_bytes whole chunking chunks)

  -- `str(v or "").strip().lower()`
  abbrev pub clean : Json → Text
  clean v = lower (strip (text_of py (or_default v (str []))))

  -- `int(v or default)`
  abbrev pub int_or : Json → ℕ → Result ParseError ℤ
  int_or v d = elim (int_of py (or_default v (num d))) [ none ↦ err builtin | some i ↦ ok i ]

  -- `int(v or 0)`, refused with `e` where it is negative
  abbrev pub size_of : ParseError → Json → Result ParseError ℕ
  size_of e v = int_or v 0 >>= λ i. elim i [ pos n ↦ ok n | negsuc n ↦ err e ]

  abbrev pub require : Bool → ParseError → Result ParseError (Unit {0})
  require true e = ok tt
  require false e = err e

  infixl 10 ◌>>◌
  abbrev ◌>>◌ {ℓ} :
      {A : Type ℓ} → Result ParseError (Unit {0}) → Result ParseError A → Result ParseError A
  m >> k = m >>= λ _. k

  unfoldable pub parse_chunking : Json → Result ParseError ManifestChunking
  parse_chunking (obj fs) = do
    avg ← int_or (get (codes "avg") fs) (1024 * 1024)
    min ← int_or (get (codes "min") fs) (256 * 1024)
    max ← int_or (get (codes "max") fs) (4 * 1024 * 1024)
    ok (record {
      algo = text_of py (or_default (get (codes "algo") fs) (str (codes "fastcdc")));
      avg = avg;
      min = min;
      max = max;
    })
  parse_chunking _ = err builtin

  unfoldable pub parse_chunk : ParseError → Fields → Result ParseError ManifestChunk
  parse_chunk e fs = do
    let h = clean (get (codes "hash") fs)
    size ← size_of e (get (codes "size") fs)
    require (not (is_empty h)) e
    ok (record { hash = h; size = size })

  unfoldable pub parse_chunks : Items → Result ParseError (List ManifestChunk)
  parse_chunks nil = ok []
  parse_chunks (item (obj fs) rest) = do
    c ← parse_chunk chunk_invalid fs
    cs ← parse_chunks rest
    ok (c ∷ cs)
  parse_chunks (item _ rest) = err chunk_not_an_object

  unfoldable pub parse_patch : Fields → Result ParseError ManifestSegment
  parse_patch fs = do
    let parent = clean (get (codes "parent_content_id") fs)
    let dict_hash = clean (get (codes "dict_hash") fs)
    let patch_hash = clean (get (codes "patch_hash") fs)
    range_start ← int_or (get (codes "range_start") fs) 0
    range_end ← int_or (get (codes "range_end") fs) 0
    patch_size ← size_of segment_invalid (get (codes "patch_size") fs)
    uncompressed_size ← size_of segment_invalid (get (codes "uncompressed_size") fs)
    require
        (not (is_empty parent)
          && not (is_empty dict_hash)
          && not (is_empty patch_hash)
          && not (is_negative range_start)
          && not (ltb_ℤ range_end range_start))
        segment_invalid
    ok (
        zstd_dict_patch parent range_start range_end dict_hash patch_hash patch_size
          uncompressed_size)

  -- The segments, and beside them the raw chunks among them.
  unfoldable pub parse_segments :
      Items → Result ParseError (List ManifestChunk × List ManifestSegment)
  parse_segments nil = ok ([], [])
  parse_segments (item (obj fs) rest) =
      let kind = clean (get (codes "kind") fs) in
      let raw = do
        c ← parse_chunk segment_invalid fs
        (cs, segs) ← parse_segments rest
        ok (c ∷ cs, raw_chunk c.hash c.size ∷ segs)
      in let patch = do p ← parse_patch fs; (cs, segs) ← parse_segments rest; ok (cs, p ∷ segs)
        in if text_eq kind (codes "raw_chunk")
          then raw
          else if text_eq kind (codes "zstd_dict_patch")
          then patch
          else err unsupported_segment_kind
  parse_segments (item _ rest) = err segment_not_an_object

  -- `data.get(key) or []`, refused with `e` where it is no list
  abbrev pub items_of : ParseError → Json → Result ParseError Items
  items_of e v = elim (or_default v (arr nil)) [ arr xs ↦ ok xs | _ ↦ err e ]

  abbrev pub is_v1_or_v2 : Json → Bool
  is_v1_or_v2 (str s) = text_eq s schema_v1 || text_eq s schema_v2
  is_v1_or_v2 _ = false

  abbrev pub is_v3 : Json → Bool
  is_v3 (str s) = text_eq s schema_v3
  is_v3 _ = false

  unfoldable pub parse_body :
      Bool → Fields → Result ParseError (List ManifestChunk × Option (List ManifestSegment))
  parse_body true fs = do
    xs ← items_of chunks_not_a_list (get (codes "chunks") fs)
    cs ← parse_chunks xs
    ok (cs, none)
  parse_body false fs = do
    xs ← items_of segments_not_a_list (get (codes "segments") fs)
    (cs, segs) ← parse_segments xs
    ok (cs, some segs)

  unfoldable pub parse_object : Fields → Result ParseError ManifestV1
  parse_object fs = do
    let schema = get (codes "schema") fs
    require (is_v1_or_v2 schema || is_v3 schema) unsupported_schema
    chunking ← parse_chunking (or_default (get (codes "chunking") fs) (obj end))
    (chunks, segments) ← parse_body (is_v1_or_v2 schema) fs
    size_bytes ← int_or (get (codes "size_bytes") fs) 0
    let whole = or_default (get (codes "whole_file_blake3") fs) (get (codes "whole_file_sha256") fs)
    ok (record {
      schema = text_of py schema;
      filename = text_of py (or_default (get (codes "filename") fs) (str []));
      size_bytes = size_bytes;
      whole_file_blake3 = clean whole;
      chunking = chunking;
      chunks = chunks;
      segments = segments;
      hash_algo =
          lower
            (strip (text_of py (or_default (get (codes "hash_algo") fs) (str (codes "blake3")))));
    })

  unfoldable pub parse_manifest : Bytes → Result ParseError ManifestV1
  parse_manifest bytes = elim (py.loads bytes) [
    | none ↦ err builtin
    | some v ↦ elim v [ obj fs ↦ parse_object fs | _ ↦ err not_an_object ]
  ]

  unfoldable pub try_parse_manifest : Bytes → Option ManifestV1
  try_parse_manifest bytes = elim (parse_manifest bytes) [ ok m ↦ some m | err _ ↦ none ]
