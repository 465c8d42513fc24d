-- ===== src/Manifest/RoundTrip.antt =====
-- A manifest that `build_manifest_v2` wrote is read back as it was meant.
use zeno_plugin.Prelude.{
  ℕ, zero, suc, ◌*◌, ◌∙◌, ◌<◌, ◌≡◌, refl, true, false, none, some, List, [], ◌∷◌, map, arith,
  is_empty,
}
use zeno_plugin.Prelude.Text.{Text, codes, text_eq, strip, lower}
use zeno_plugin.Prelude.Result.{ok}
use zeno_plugin.Prelude.Int.{pos}
use zeno_plugin.Chunking.{Bytes, Chunk, ChunkingConfig}
use zeno_plugin.Manifest.Value.{str, obj, end, arr, field, Fields, Python, get, text_of, or_default}
use zeno_plugin.Manifest.{
  ManifestChunk, ManifestChunking, ManifestV1, schema_v2, num, chunking_json, chunks_json,
  payload_v2, build_manifest_v2, clean, int_or, parse_chunking, parse_chunk, parse_chunks,
  parse_body, parse_object, parse_manifest, items_of, chunks_not_a_list,
}

-- A text that `strip().lower()` leaves alone, as every hexadecimal digest is.
abbrev pub IsClean : Text → Type 0
IsClean t = lower (strip t) ≡ t

abbrev pub IsDigest : Text → Type 0
IsDigest t = IsClean t × (is_empty t ≡ false)

abbrev pub AllDigests : List Chunk → Type 0
AllDigests [] = Unit
AllDigests (c ∷ cs) = IsDigest c.content_hash × AllDigests cs

abbrev pub listed : Chunk → ManifestChunk
listed c = record { hash = c.content_hash; size = c.size }

-- the chunking settings, as `parse_manifest` reads them
abbrev pub read : ChunkingConfig → ManifestChunking
read c = record { algo = c.algo; avg = pos c.avg; min = pos c.min; max = pos c.max }

module _ (py : Python) where
  pub clean-str : (s : Text) → IsClean s → clean py (str s) ≡ s
  clean-str [] h = h
  clean-str (c ∷ s) h = h

  int_or-num : (n : ℕ) → int_or py (num n) 0 ≡ ok (pos n)
  int_or-num zero = refl
  int_or-num (suc n) = ground arith

  int_or_of_pos : (n d : ℕ) → 0 < n → int_or py (num n) d ≡ ok (pos n)
  int_or_of_pos n d h = ground arith

  parse_chunks-chunks_json :
      (cs : List Chunk) → AllDigests cs → parse_chunks py (chunks_json cs) ≡ ok (map listed cs)
  unfolding parse_chunks parse_chunk chunks_json get text_eq
  parse_chunks-chunks_json [] h = refl
  parse_chunks-chunks_json (c ∷ cs) (d, more) =
      rw (clean-str c.content_hash d.0, int_or-num c.size, d.1, parse_chunks-chunks_json cs more)
        refl

  text_or-str : (s : Text) → text_of py (or_default (str s) (str [])) ≡ s
  text_or-str [] = refl
  text_or-str (c ∷ s) = refl

  text_or_of_nonempty :
      (s t : Text) → is_empty s ≡ false → text_of py (or_default (str s) (str t)) ≡ s
  text_or_of_nonempty [] t h = cc
  text_or_of_nonempty (c ∷ s) t h = refl

  clean_whole :
      (s : Text) (fs : Fields)
      → IsClean s
      → clean py (or_default (str s) (get (codes "whole_file_sha256") end)) ≡ s
  unfolding get
  clean_whole [] fs h = h
  clean_whole (c ∷ s) fs h = h

  chunking_read :
      (c : ChunkingConfig)
      → is_empty c.algo ≡ false
      → 0 < c.avg
      → 0 < c.min
      → 0 < c.max
      → parse_chunking py (chunking_json c) ≡ ok (read c)
  unfolding parse_chunking chunking_json get text_eq
  chunking_read c a b d e =
      rw
        (
          int_or_of_pos c.avg (1024 * 1024) b,
          int_or_of_pos c.min (256 * 1024) d,
          int_or_of_pos c.max (4 * 1024 * 1024) e,
          text_or_of_nonempty c.algo (codes "fastcdc") a,
        )
        refl

abbrev fields_v2 : Text → ℕ → Text → ChunkingConfig → List Chunk → Fields
fields_v2 filename size_bytes whole c chunks = field (codes "chunking") (chunking_json c) (
    field (codes "chunks") (arr (chunks_json chunks)) (
      field (codes "filename") (str filename) (
        field (codes "hash_algo") (str (codes "blake3")) (
          field (codes "schema") (str schema_v2) (
            field (codes "size_bytes") (num size_bytes)
              (field (codes "whole_file_blake3") (str whole) end))))))

hash_algo_read :
    (py : Python)
    → lower (strip (text_of py (or_default (str (codes "blake3")) (str (codes "blake3")))))
      ≡ codes "blake3"
unfolding lower strip
hash_algo_read py = refl

items_read :
    (py : Python) (chunks : List Chunk)
    → items_of py chunks_not_a_list (arr (chunks_json chunks)) ≡ ok (chunks_json chunks)
unfolding chunks_json
items_read py [] = refl
items_read py (c ∷ cs) = refl

body_read :
    (py : Python) (filename : Text) (size_bytes : ℕ) (whole : Text) (c : ChunkingConfig)
    (chunks : List Chunk)
    → AllDigests chunks
    → parse_body py true (fields_v2 filename size_bytes whole c chunks)
      ≡ ok (map listed chunks, none)
unfolding parse_body get text_eq
body_read py filename size_bytes whole c chunks d =
    rw (items_read py chunks, parse_chunks-chunks_json py chunks d) refl

pub parse_loaded :
    (py : Python) (bytes : Bytes) (fs : Fields)
    → py.loads bytes ≡ some (obj fs)
    → parse_manifest py bytes ≡ parse_object py fs
unfolding parse_manifest
parse_loaded py bytes fs e = rw (e, parse_manifest) refl

-- What `parse_manifest` makes of a manifest of schema 2.
abbrev pub manifest_v2 : Text → ℕ → Text → ChunkingConfig → List Chunk → ManifestV1
manifest_v2 filename size_bytes whole chunking chunks = record {
  schema = schema_v2;
  filename = filename;
  size_bytes = pos size_bytes;
  whole_file_blake3 = whole;
  chunking = read chunking;
  chunks = map listed chunks;
  segments = none;
  hash_algo = codes "blake3";
}

-- If JSON decodes what it encoded, then every manifest built by `build_manifest_v2` parses, to the
-- file name, the size, the whole-file digest, the chunking settings and the chunks that it was
-- built from. Digests must be free of capitals and surrounding blanks, those of chunks nonempty;
-- the chunking settings must be nonempty and positive, since a 0 is read as the default.
pub parse_manifest-build_manifest_v2 :
    (py : Python) (filename : Text) (size_bytes : ℕ) (whole : Text) (c : ChunkingConfig)
    (chunks : List Chunk)
    → py.loads (py.dumps (payload_v2 filename size_bytes whole c chunks))
      ≡ some (payload_v2 filename size_bytes whole c chunks)
    → IsClean whole
    → AllDigests chunks
    → is_empty c.algo ≡ false
    → 0 < c.avg
    → 0 < c.min
    → 0 < c.max
    → parse_manifest py (build_manifest_v2 py filename size_bytes whole c chunks)
      ≡ ok (manifest_v2 filename size_bytes whole c chunks)
unfolding build_manifest_v2 payload_v2
parse_manifest-build_manifest_v2 py filename size_bytes whole c chunks codec w d a b e f =
    parse_loaded py _ _ codec
    ∙ let body : parse_body py true (fields_v2 filename size_bytes whole c chunks)
          ≡ ok (map listed chunks, none) =
        body_read py filename size_bytes whole c chunks d in
      unfold parse_object get text_eq in
      rw
        (
          chunking_read py c a b e f,
          body,
          int_or-num py size_bytes,
          clean_whole py whole end w,
          text_or-str py filename,
          hash_algo_read py,
        )
        refl
