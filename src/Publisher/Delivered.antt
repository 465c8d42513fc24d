-- ===== src/Publisher/Delivered.antt =====
-- What a publisher may rely on once publishing has succeeded.
use zeno_plugin.Prelude.{◌≡◌, true, false, Option, none, some, List, [], ◌∷◌}
use zeno_plugin.Prelude.Text.{Text, codes}
use zeno_plugin.Prelude.Result.{Result, ok}
use zeno_plugin.Chunking.{Bytes, Chunk, iter_chunks}
use zeno_plugin.Manifest.{ManifestSegment}
use zeno_plugin.Client.{Api}
use zeno_plugin.Client.Laws.{View}
use zeno_plugin.Client.Stored.{AllHas}
use zeno_plugin.Omni.{Engine, or_raw}
use zeno_plugin.Omni.Restored.{Restores, segment_hashes}
use zeno_plugin.Publisher.{PublishRequest, PublishResult, uses_omni}

abbrev pub chunk_hashes : List Chunk → List Text
chunk_hashes [] = []
chunk_hashes (ch ∷ chs) = ch.content_hash ∷ chunk_hashes chs

module _ {S F : Type 0} (view : View S) (api : Api S) (en : Engine F) (omni_flag : Option Text)
    (canonicalize_file : PublishRequest F → Result Text (Option Bytes))
    (req : PublishRequest F) where
  -- Every chunk of the file is there.
  abbrev pub ChunksThere : S → Type 0
  ChunksThere = AllHas view (chunk_hashes (iter_chunks en.gear en.hash req.chunking [] req.content))

  -- Where there is a canonical form the file itself is there too, and is what is delivered.
  abbrev pub RawThere : Option Bytes → PublishResult → S → Type 0
  RawThere none r s = r.delivery_content_id ≡ none
  RawThere (some b) r s =
      (r.delivery_content_id ≡ some (en.hash req.content)) × view.Has (en.hash req.content) s

  -- There are segments that stand for the canonical form, or for the file where it has none, and
  -- every blob that they name is there.
  abbrev pub SegmentsThere : PublishResult → S → Type 0
  SegmentsThere r s =
      (canonical : Option Bytes) × (canonicalize_file req ≡ ok canonical)
      × (segs : List ManifestSegment) × AllHas view (segment_hashes segs) s
      × Restores en.hash en.zstd segs (or_raw req.content canonical)
      × RawThere canonical r s

  -- The blob that the result names is there. For the strategy "chunked" so are the chunks, or with
  -- the omni chunker the blobs of the segments.
  abbrev pub Delivered : PublishResult → S → Type 0
  Delivered r s =
      view.Has r.manifest_id s
      × ((r.strategy ≡ codes "chunked")
          → ((uses_omni api en omni_flag canonicalize_file req ≡ false) → ChunksThere s)
            × ((uses_omni api en omni_flag canonicalize_file req ≡ true) → SegmentsThere r s))
