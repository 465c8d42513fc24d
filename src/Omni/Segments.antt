-- ===== src/Omni/Segments.antt =====
-- The loop over the segments: on a lawful server it leaves every blob that its segments name, and
-- they stand for the stretch of the file that they were made for.
use mathlib.Core.Path.{subst}
use mathlib.Core.List.{append-nil}
use zeno_plugin.Prelude.{
  ℕ, ◌-◌, ◌≤◌, ◌<◌, ◌≡◌, refl, sym, ap, Option, none, some, List, [], ◌∷◌, ◌++◌, arith, slice,
}
use zeno_plugin.Prelude.Text.{Text}
use zeno_plugin.Prelude.Result.{Result, ok, err}
use zeno_plugin.Prelude.Action.{pure, ◌>>=◌, Triple, Triple-bind, Triple-weaken}
use zeno_plugin.Chunking.{Bytes, Chunk}
use zeno_plugin.Chunking.Cover.{Covers}
use zeno_plugin.Chunking.Range.{whole_range-Covers}
use zeno_plugin.Manifest.{ManifestSegment, raw_chunk, zstd_dict_patch}
use zeno_plugin.Entropy.{SegmentMode, low, high, mid, EntropySegment}
use zeno_plugin.Entropy.Tiles.{Tiles}
use zeno_plugin.Client.{Api}
use zeno_plugin.Client.Laws.{View, Lawful}
use zeno_plugin.Client.Stored.{
  AllHas-append, AllHas-split, Honest, Covers-Honest, Intact, AllHas, Stored, ensure_blob-Stored,
}
use zeno_plugin.Omni.{
  Engine, IngestRequest, Progress, chunk_source, segment_chunks, upload_segment, raw_segment,
  patch_segment, patched, joined, high_segment, ingest_segment, ingest_segments,
}
use zeno_plugin.Omni.Patch.Payloads.{
  Unpacks, Inverts, Payload, Payloads, high_entropy_patch-Payloads,
}
use zeno_plugin.Omni.Restored.{
  Restores, raw_segments, segment_hashes, Restores-append, Covers-Restores, slice_split, Tiles-le,
}

segment_hashes-append :
    (ss ts : List ManifestSegment)
    → segment_hashes (ss ++ ts) ≡ segment_hashes ss ++ segment_hashes ts
segment_hashes-append [] ts = refl
segment_hashes-append (raw_chunk h n ∷ ss) ts = ap (◌∷◌ h) (segment_hashes-append ss ts)
segment_hashes-append (zstd_dict_patch parent a b d p size n ∷ ss) ts =
    ap (λ hs. d ∷ p ∷ hs) (segment_hashes-append ss ts)

module _ {F : Type 0} (en : Engine F) (req : IngestRequest F) (seg : EntropySegment F) where
  abbrev stretch : Bytes
  stretch = slice (chunk_source en req) seg.start seg.end

  segment_chunks-Covers :
      0 < req.chunking.max → Covers en.hash seg.start stretch (segment_chunks en req seg)
  unfolding segment_chunks
  segment_chunks-Covers room =
      whole_range-Covers en.gear en.hash req.chunking _ stretch seg.start room

  pub segment_chunks-Honest :
      0 < req.chunking.max → Honest en.hash (chunk_source en req) (segment_chunks en req seg)
  segment_chunks-Honest room =
      Covers-Honest en.hash (chunk_source en req) seg.start (seg.end - seg.start)
        (segment_chunks en req seg) (segment_chunks-Covers room)

module _ {S F : Type 0} (view : View S) (api : Api S) (en : Engine F)
    (laws : Lawful view api en.hash) (inverts : Inverts en.zstd) (req : IngestRequest F) where
  -- after a part of the loop: its blobs are there, and its segments stand for `source`
  abbrev pub Kept : List Text → Bytes → Progress → S → Type 0
  Kept hs source p s =
      AllHas view (segment_hashes p.segments) s
      × AllHas view hs s
      × Restores en.hash en.zstd p.segments source

  upload_segment-Kept :
      (hs : List Text) (source : Bytes) (chs : List Chunk)
      → Honest en.hash source chs
      → Triple
          (Stored view hs)
          (Intact view)
          (λ r s.
            (r.1 ≡ raw_segments chs)
            × AllHas view (segment_hashes (raw_segments chs)) s
            × AllHas view hs s)
          (upload_segment api en source chs)
  unfolding upload_segment
  upload_segment-Kept hs source [] good = record { run = λ s (i, a). (i, (refl, tt, a)) }
  upload_segment-Kept hs source (ch ∷ chs) (good, rest) =
      Triple-bind (ensure_blob-Stored view api en.hash laws hs _ ch.content_hash good) λ m.
        Triple-bind (upload_segment-Kept (ch.content_hash ∷ hs) source chs rest) λ (n, segs).
          record {
            run = λ s (i, (e, c, (h, a))).
                (i, (ap (◌∷◌ (raw_chunk ch.content_hash ch.size)) e, (h, c), a));
          }

  module _ (room : 0 < req.chunking.max) (seg : EntropySegment F) where
    raw_segment-Kept :
        (hs : List Text)
        → Triple
            (Stored view hs)
            (Intact view)
            (Kept hs (stretch en req seg))
            (raw_segment api en req seg)
    unfolding raw_segment
    raw_segment-Kept hs =
        let chunks = segment_chunks en req seg in
        Triple-bind
          (upload_segment-Kept hs (chunk_source en req) chunks
            (segment_chunks-Honest en req seg room))
          λ (n, segs). record {
            run = λ s (i, (e, c, a)). (
              i,
              (
                subst (λ ss. AllHas view (segment_hashes ss) s) (sym e) c,
                a,
                subst (λ ss. Restores en.hash en.zstd ss (stretch en req seg)) (sym e)
                    (Covers-Restores en.hash en.zstd seg.start (stretch en req seg) chunks
                      (segment_chunks-Covers en req seg room)),
              ),
            );
          }

    patch_segment-Kept :
        (hs : List Text) (dict patch : Bytes)
        → Unpacks en.zstd dict patch (stretch en req seg)
        → Triple
            (Stored view hs)
            (Intact view)
            (Kept hs (stretch en req seg))
            (patch_segment api en req seg dict patch)
    unfolding patch_segment
    patch_segment-Kept hs dict patch u =
        Triple-bind (ensure_blob-Stored view api en.hash laws hs dict (en.hash dict) refl) λ m.
          Triple-bind
            (ensure_blob-Stored view api en.hash laws (en.hash dict ∷ hs) patch (en.hash patch)
              refl)
            λ n. record {
              run = λ s (i, (p, (d, a))). (
                i,
                (
                  (d, (p, tt)),
                  a,
                  (
                    (stretch en req seg),
                    [],
                    sym (append-nil (stretch en req seg)),
                    (dict, patch, refl, refl, refl, u),
                    refl,
                  ),
                ),
              );
            }

    high_segment-Kept :
        (hs : List Text)
        → Triple
            (Stored view hs)
            (Intact view)
            (Kept hs (stretch en req seg))
            (high_segment api en req seg)
    unfolding high_segment patched
    high_segment-Kept hs =
        Triple-bind (made _ (high_entropy_patch-Payloads en.zstd (stretch en req seg) _ inverts))
          λ p. sent p
      where
        made :
            (r : Result Text (Option (Bytes × Bytes)))
            → Payloads en.zstd (stretch en req seg) r
            → Triple
                (Stored view hs)
                (Intact view)
                (λ p s. Payload en.zstd (stretch en req seg) p × AllHas view hs s)
                (λ s. (r, s))
        made (ok p) u = record { run = λ s (i, a). (i, (u, a)) }
        made (err e) u = record { run = λ s (i, a). i }

        sent :
            (p : Option (Bytes × Bytes))
            → Triple
                (λ s. Intact view s × (Payload en.zstd (stretch en req seg) p × AllHas view hs s))
                (Intact view)
                (Kept hs (stretch en req seg))
                (patched api en req seg p)
        sent none = Triple-weaken (λ s (i, (u, a)). (i, a)) (raw_segment-Kept hs)
        sent (some (dict, patch)) = record {
          run = λ s (i, (u, a)). (patch_segment-Kept hs dict patch u).run s (i, a);
        }

    ingest_segment-Kept :
        (hs : List Text) (mode : SegmentMode)
        → Triple
            (Stored view hs)
            (Intact view)
            (Kept hs (stretch en req seg))
            (ingest_segment api en req seg mode)
    unfolding ingest_segment
    ingest_segment-Kept hs low = raw_segment-Kept hs
    ingest_segment-Kept hs mid = raw_segment-Kept hs
    ingest_segment-Kept hs high = high_segment-Kept hs

  -- one segment in front of the others
  module _ (hs : List Text) (b : ℕ) (seg : EntropySegment F) (segs : List (EntropySegment F))
      (ordered : seg.start ≤ seg.end) (inside : seg.end ≤ b)
      (others : (ks : List Text)
        → Triple
            (Stored view ks)
            (Intact view)
            (Kept ks (slice (chunk_source en req) seg.end b))
            (ingest_segments api en req segs)) where
    abbrev source : Bytes
    source = chunk_source en req

    joined-Kept :
        (p q : Progress) (s : S)
        → Restores en.hash en.zstd p.segments (slice source seg.start seg.end)
        → Kept (segment_hashes p.segments ++ hs) (slice source seg.end b) q s
        → Kept hs (slice source seg.start b) (joined p q) s
    joined-Kept p q s r (c, h, r') =
        let (d, h') = AllHas-split view (segment_hashes p.segments) hs s h in
        (
          subst (λ ks. AllHas view ks s) (sym (segment_hashes-append p.segments q.segments))
              (AllHas-append view (segment_hashes p.segments) (segment_hashes q.segments) s d c),
          h',
          subst (Restores en.hash en.zstd (p.segments ++ q.segments))
              (sym (slice_split seg.start seg.end b source ordered inside))
              (Restores-append en.hash en.zstd p.segments q.segments _ _ r r'),
        )

    others-Kept :
        (p : Progress)
        → Restores en.hash en.zstd p.segments (slice source seg.start seg.end)
        → Triple
            (Stored view (segment_hashes p.segments ++ hs))
            (Intact view)
            (Kept hs (slice source seg.start b))
            (ingest_segments api en req segs >>= λ q. pure (joined p q))
    others-Kept p r =
        Triple-bind (others (segment_hashes p.segments ++ hs))
          λ q. record { run = λ s (i, k). (i, joined-Kept p q s r k) }

    both-Kept :
        0 < req.chunking.max
        → Triple
            (Stored view hs)
            (Intact view)
            (Kept hs (slice source seg.start b))
            (ingest_segments api en req (seg ∷ segs))
    unfolding ingest_segments
    both-Kept room = Triple-bind (ingest_segment-Kept room seg hs seg.mode) λ p. record {
      run = λ s (i, (c, h, r)).
          (others-Kept p r).run s (i, AllHas-append view (segment_hashes p.segments) hs s c h);
    }

  pub ingest_segments-Kept :
      (a b : ℕ) (segs : List (EntropySegment F))
      → 0 < req.chunking.max
      → Tiles a b segs
      → (hs : List Text)
      → Triple
          (Stored view hs)
          (Intact view)
          (Kept hs (slice (chunk_source en req) a b))
          (ingest_segments api en req segs)
  unfolding ingest_segments
  ingest_segments-Kept a b [] room e hs = record {
    run = λ s (i, h). let none_left : b - a ≡ 0 = omega arith in (i, (tt, h, rw none_left refl));
  }
  ingest_segments-Kept a b (seg ∷ segs) room (at, pos, t) hs =
      subst
        (λ k.
          Triple (Stored view hs) (Intact view) (Kept hs (slice (chunk_source en req) k b))
            (ingest_segments api en req (seg ∷ segs)))
        at
        (both-Kept hs b seg segs (omega arith) (Tiles-le seg.end b segs t)
          (ingest_segments-Kept seg.end b segs room t) room)
