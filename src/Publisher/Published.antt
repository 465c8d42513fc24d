-- ===== src/Publisher/Published.antt =====
-- Publishing keeps the server intact: no version is registered whose blob is missing.
use zeno_plugin.Prelude.{◌<◌, ◌≡◌, refl, true, Option, none, some, List, ◌∷◌, if◌then◌else◌}
use zeno_plugin.Prelude.Text.{Text, codes, text_eq}
use zeno_plugin.Prelude.Result.{Result, ok, err}
use zeno_plugin.Prelude.Action.{
  Action, pure, Outcome, Triple, Triple-bind, Triple-if, Triple-weaken,
}
use zeno_plugin.Chunking.{Bytes}
use zeno_plugin.Client.{StorageMeta, Api}
use zeno_plugin.Client.Laws.{View, Lawful}
use zeno_plugin.Client.Stored.{
  Intact, Stored, Intact-keep, call, register-Stored, ensure_blob-Stored,
}
use zeno_plugin.Omni.{Engine, OmniIngestResult, settings}
use zeno_plugin.Omni.Patch.Payloads.{Inverts}
use zeno_plugin.Omni.Restored.{Restores, segment_hashes}
use zeno_plugin.Omni.Ingested.{Ingested, ingest-Ingested}
use zeno_plugin.Publisher.{
  PublishRequest, registration, publish_whole_file, publish_chunks, publish_canonical,
  representation_key, publish_chunked_file, uses_omni, parent_of, publish_omni, register_omni,
  ingest_request,
}
use zeno_plugin.Publisher.Delivered.{Delivered}
use zeno_plugin.Publisher.Whole.{differ, choose-Stored, whole-Stored, chunks-Stored}

module _ {S F : Type 0} (view : View S) (api : Api S) (en : Engine F)
    (laws : Lawful view api en.hash) (inverts : Inverts en.zstd) (omni_flag : Option Text)
    (canonicalize_file : PublishRequest F → Result Text (Option Bytes)) where
  parent-Stored :
      (req : PublishRequest F)
      → Triple
          (Intact view)
          (Intact view)
          (λ _ _. Unit {0})
          (parent_of api en omni_flag canonicalize_file req)
  unfolding parent_of
  parent-Stored req = given req.parent_content_id
    where
      asked : Text → Action Text S (Option Text)
      asked key = api.latest_content_id req.project req.asset key (codes "dedup")

      given :
          (o : Option Text)
          → Triple
              (Intact view)
              (Intact view)
              (λ _ _. Unit {0})
              (elim o as (λ _. Action Text S (Option Text)) [
                | some cid ↦ pure (some cid)
                | none ↦ asked (representation_key req)
              ])
      given (some cid) = record { run = λ s i. (i, tt) }
      given none =
          call
            (λ s i.
              Intact-keep view s _
                (laws.latest_keeps req.project req.asset (representation_key req) (codes "dedup") s)
                i)
            (λ s a i e. tt)

  module _ (req : PublishRequest F) (meta : StorageMeta)
      (on : uses_omni api en omni_flag canonicalize_file req ≡ true) where
    -- what ingest left on the server, for the registration
    abbrev hashes : OmniIngestResult → List Text
    hashes omni = omni.manifest_id ∷ segment_hashes omni.segments

    register-raw :
        (omni : OmniIngestResult)
        → canonicalize_file req ≡ ok none
        → Restores en.hash en.zstd omni.segments req.content
        → Triple
            (Stored view (hashes omni))
            (Intact view)
            (Delivered view api en omni_flag canonicalize_file req)
            (register_omni api en omni_flag canonicalize_file req meta none omni)
    unfolding register_omni
    register-raw omni c r =
        Triple-bind
          (register-Stored view api en.hash laws (segment_hashes omni.segments)
            (registration api en omni_flag canonicalize_file req meta omni.manifest_id none))
          λ reg. record {
            run = λ s (i, (h, a)). (
              i,
              (
                h,
                λ _. ((λ off. absurd (differ off on)), (λ _. (none, c, omni.segments, a, r, refl))),
              ),
            );
          }

    register-canonical :
        (b : Bytes) (omni : OmniIngestResult)
        → canonicalize_file req ≡ ok (some b)
        → Restores en.hash en.zstd omni.segments b
        → Triple
            (Stored view (hashes omni))
            (Intact view)
            (Delivered view api en omni_flag canonicalize_file req)
            (register_omni api en omni_flag canonicalize_file req meta (some b) omni)
    unfolding register_omni
    register-canonical b omni c r =
        Triple-bind
          (ensure_blob-Stored view api en.hash laws (hashes omni) req.content (en.hash req.content)
            refl)
          λ n.
            Triple-bind
              (register-Stored view api en.hash laws (hashes omni)
                (registration api en omni_flag canonicalize_file req meta (en.hash req.content) _))
              λ reg. record {
                run = λ s (i, (raw, (h, a))). (
                  i,
                  (
                    h,
                    λ _. (
                      (λ off. absurd (differ off on)),
                      (λ _. (some b, c, omni.segments, a, r, (refl, raw))),
                    ),
                  ),
                );
              }

    register-Delivered :
        (canonical : Option Bytes) (parent : Option Text) (omni : OmniIngestResult)
        → canonicalize_file req ≡ ok canonical
        → Triple
            (λ s.
              Intact view s
              × Ingested view en
                  (ingest_request api en omni_flag canonicalize_file req canonical parent)
                  omni
                  s)
            (Intact view)
            (Delivered view api en omni_flag canonicalize_file req)
            (register_omni api en omni_flag canonicalize_file req meta canonical omni)
    register-Delivered none parent omni c = record {
      run = λ s (i, (h, _, _, a, r)). (register-raw omni c r).run s (i, (h, a));
    }
    register-Delivered (some b) parent omni c = record {
      run = λ s (i, (h, _, _, a, r)). (register-canonical b omni c r).run s (i, (h, a));
    }

    omni-Delivered :
        (canonical : Option Bytes)
        → canonicalize_file req ≡ ok canonical
        → 0 < req.chunking.max
        → 0 < (settings en req.entropy).window_size
        → Triple
            (Intact view)
            (Intact view)
            (Delivered view api en omni_flag canonicalize_file req)
            (publish_omni api en omni_flag canonicalize_file req meta canonical)
    unfolding publish_omni
    omni-Delivered canonical c room windows = Triple-bind (parent-Stored req) λ parent.
        Triple-weaken (λ s h. h.0)
          (Triple-bind
            (ingest-Ingested view api en laws inverts
              (ingest_request api en omni_flag canonicalize_file req canonical parent) room windows)
            λ omni. register-Delivered canonical parent omni c)

  canonical-Delivered :
      (req : PublishRequest F) (meta : StorageMeta)
      → 0 < req.chunking.max
      → 0 < (settings en req.entropy).window_size
      → Triple
          (Intact view)
          (Intact view)
          (Delivered view api en omni_flag canonicalize_file req)
          (publish_canonical api en omni_flag canonicalize_file req meta)
  unfolding publish_canonical
  canonical-Delivered req meta room windows =
      Triple-bind (read (canonicalize_file req) refl)
        λ canonical. record { run = λ s (i, c). (sent canonical c).run s i }
    where
      read :
          (r : Result Text (Option Bytes))
          → canonicalize_file req ≡ r
          → Triple
              (Intact view)
              (Intact view)
              (λ canonical _. canonicalize_file req ≡ ok canonical)
              (λ s. (r, s))
      read (ok b) e = record { run = λ s i. (i, e) }
      read (err x) e = record { run = λ s i. i }

      sent :
          (canonical : Option Bytes)
          → canonicalize_file req ≡ ok canonical
          → Triple
              (Intact view)
              (Intact view)
              (Delivered view api en omni_flag canonicalize_file req)
              (if uses_omni api en omni_flag canonicalize_file req
                then publish_omni api en omni_flag canonicalize_file req meta canonical
                else publish_chunks api en omni_flag canonicalize_file req meta)
      sent canonical c =
          Triple-if (uses_omni api en omni_flag canonicalize_file req)
            (publish_omni api en omni_flag canonicalize_file req meta canonical)
            (publish_chunks api en omni_flag canonicalize_file req meta)
            (λ on. omni-Delivered req meta on canonical c room windows)
            (λ off. chunks-Stored view api en laws omni_flag canonicalize_file req meta room off)

  publish-Delivered :
      (req : PublishRequest F)
      → 0 < req.chunking.max
      → 0 < (settings en req.entropy).window_size
      → Triple
          (Intact view)
          (Intact view)
          (Delivered view api en omni_flag canonicalize_file req)
          (publish_chunked_file api en omni_flag canonicalize_file req)
  unfolding publish_chunked_file
  publish-Delivered req room windows =
      Triple-bind (choose-Stored view api en laws omni_flag canonicalize_file req) λ meta.
        Triple-weaken (λ s h. h.0)
          (Triple-if (text_eq meta.strategy (codes "whole"))
            (publish_whole_file api en omni_flag canonicalize_file req meta)
            (publish_canonical api en omni_flag canonicalize_file req meta)
            (λ _. whole-Stored view api en laws omni_flag canonicalize_file req meta)
            (λ _. canonical-Delivered req meta room windows))

-- Under the laws of the server and of zstandard, with windows and chunks that may hold a byte,
-- publishing keeps the server intact whichever call fails: no version is registered whose blob is
-- missing. Where it succeeds, the blob that the result names is there. For the strategy "chunked" so
-- is the blob of every chunk of the file; with the omni chunker, the blobs of segments that stand
-- for the canonical form of the file, or for the file where it has none, and, where it has one, the
-- file itself under its own hash, which is what is delivered.
pub publish_chunked_file-Delivered :
    {S F : Type 0} (view : View S) (api : Api S) (en : Engine F)
    → Lawful view api en.hash
    → Inverts en.zstd
    → (omni_flag : Option Text) (canonicalize_file : PublishRequest F → Result Text (Option Bytes))
      (req : PublishRequest F) (s : S)
    → 0 < req.chunking.max
    → 0 < (settings en req.entropy).window_size
    → Intact view s
    → Outcome
        (Intact view)
        (Delivered view api en omni_flag canonicalize_file req)
        (publish_chunked_file api en omni_flag canonicalize_file req s).0
        (publish_chunked_file api en omni_flag canonicalize_file req s).1
publish_chunked_file-Delivered view api en laws inverts omni_flag canonicalize_file req s room
      windows i =
    (publish-Delivered view api en laws inverts omni_flag canonicalize_file req room windows).run s
      i
