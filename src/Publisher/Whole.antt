-- ===== src/Publisher/Whole.antt =====
-- The strategy, a file published whole, and a file published in chunks.
use mathlib.Core.Path.{subst}
use zeno_plugin.Prelude.{
  ◌<◌, ◌≡◌, refl, sym, Bool, true, false, Option, none, some, List, [], ◌∷◌, if◌then◌else◌, length,
  take_all, arith,
}
use zeno_plugin.Prelude.Text.{Text, codes}
use zeno_plugin.Prelude.Result.{Result}
use zeno_plugin.Prelude.Action.{Action, pure, Triple, Triple-bind, Triple-if, Triple-weaken}
use zeno_plugin.Chunking.{Bytes, Chunk, iter_chunks}
use zeno_plugin.Chunking.Cover.{Covers, iter_chunks-Covers}
use zeno_plugin.Client.{StorageMeta, Api}
use zeno_plugin.Client.Laws.{View, Lawful}
use zeno_plugin.Client.Stored.{
  Honest, Covers-Honest, Intact, AllHas, Stored, Intact-keep, upload-Stored, register-Stored,
  ensure_blob-Stored,
}
use zeno_plugin.Omni.{Engine}
use zeno_plugin.Publisher.{
  PublishRequest, is_strategy, resolve_strategy, choose_strategy, registration, publish_whole_file,
  upload_chunks, file_name, manifest_of, publish_chunks, uses_omni,
}
use zeno_plugin.Publisher.Delivered.{chunk_hashes, Delivered}

pub differ : {b : Bool} → b ≡ false → b ≡ true → ⊥
differ f t = cc

module _ {S F : Type 0} (view : View S) (api : Api S) (en : Engine F)
    (laws : Lawful view api en.hash) (omni_flag : Option Text)
    (canonicalize_file : PublishRequest F → Result Text (Option Bytes)) where
  upload_chunks-Stored :
      (hs : List Text) (file : Bytes) (chs : List Chunk)
      → Honest en.hash file chs
      → Triple
          (Stored view hs)
          (Intact view)
          (λ _ s. AllHas view (chunk_hashes chs) s × AllHas view hs s)
          (upload_chunks api en omni_flag canonicalize_file file chs)
  unfolding upload_chunks
  upload_chunks-Stored hs file [] good = record { run = λ s (i, a). (i, (tt, a)) }
  upload_chunks-Stored hs file (ch ∷ chs) (good, rest) =
      Triple-bind (ensure_blob-Stored view api en.hash laws hs _ ch.content_hash good) λ m.
        Triple-bind (upload_chunks-Stored (ch.content_hash ∷ hs) file chs rest)
          λ n. record { run = λ s (i, (c, (h, a))). (i, ((h, c), a)) }

  pub choose-Stored :
      (req : PublishRequest F)
      → Triple
          (Intact view)
          (Intact view)
          (λ _ _. Unit {0})
          (choose_strategy api en omni_flag canonicalize_file req)
  unfolding choose_strategy resolve_strategy
  choose-Stored req = chosen req.strategy
    where
      asked :
          (f : Text)
          → Triple
              (Intact view)
              (Intact view)
              (λ _ _. Unit {0})
              (resolve_strategy api en omni_flag canonicalize_file f)
      asked f = record { run = λ s i. (Intact-keep view s _ (laws.resolve_keeps f s) i, tt) }

      chosen :
          (o : Option Text)
          → Triple
              (Intact view)
              (Intact view)
              (λ _ _. Unit {0})
              (elim o as (λ _. Action Text S StorageMeta) [
                | none ↦ resolve_strategy api en omni_flag canonicalize_file (file_name req)
                | some s ↦
                    if is_strategy s
                    then pure record {
                      strategy = s;
                      reason = codes "requested by caller";
                      algorithm_version = [];
                    }
                    else resolve_strategy api en omni_flag canonicalize_file (file_name req)
              ])
      chosen none = asked (file_name req)
      chosen (some s) =
          Triple-if (is_strategy s)
            (pure
              record { strategy = s; reason = codes "requested by caller"; algorithm_version = [] })
            (resolve_strategy api en omni_flag canonicalize_file (file_name req))
            (λ _. record { run = λ s i. (i, tt) }) (λ _. asked (file_name req))

  pub whole-Stored :
      (req : PublishRequest F) (meta : StorageMeta)
      → Triple
          (Intact view)
          (Intact view)
          (Delivered view api en omni_flag canonicalize_file req)
          (publish_whole_file api en omni_flag canonicalize_file req meta)
  unfolding publish_whole_file
  whole-Stored req meta =
      Triple-weaken (λ s i. (i, tt))
        (Triple-bind
          (ensure_blob-Stored view api en.hash laws [] req.content (en.hash req.content) refl)
          λ n.
            Triple-bind
              (register-Stored view api en.hash laws [] (
                registration api en omni_flag canonicalize_file req meta (en.hash req.content)
                  none))
              λ reg. record { run = λ s (i, (h, a)). (i, (h, λ e. absurd cc)) })

  pub chunks-Stored :
      (req : PublishRequest F) (meta : StorageMeta)
      → 0 < req.chunking.max
      → uses_omni api en omni_flag canonicalize_file req ≡ false
      → Triple
          (Intact view)
          (Intact view)
          (Delivered view api en omni_flag canonicalize_file req)
          (publish_chunks api en omni_flag canonicalize_file req meta)
  unfolding publish_chunks
  chunks-Stored req meta room off =
      let chunks = iter_chunks en.gear en.hash req.chunking [] req.content in
      let manifest = manifest_of api en omni_flag canonicalize_file req chunks in
      let good = Covers-Honest en.hash req.content 0 (length req.content) chunks (
        subst (λ b. Covers en.hash 0 b chunks)
          (sym (take_all (length req.content) req.content (omega arith)))
          (iter_chunks-Covers en.gear en.hash req.chunking [] req.content room)) in
      Triple-weaken (λ s i. (i, tt))
        (Triple-bind (upload_chunks-Stored [] req.content chunks good) λ n.
          Triple-weaken (λ s (i, (c, a)). (i, c))
            (Triple-bind
              (upload-Stored view api en.hash laws (chunk_hashes chunks) manifest (en.hash manifest)
                refl)
              λ _.
                Triple-bind
                  (register-Stored view api en.hash laws (chunk_hashes chunks) (
                    registration api en omni_flag canonicalize_file req meta (en.hash manifest)
                      none))
                  λ reg. record {
                    run =
                        λ s (i, (h, a)). (i, (h, λ e. ((λ _. a), (λ on. absurd (differ off on)))));
                  }))
