-- ===== src/Omni/Orphan.antt =====
-- A patch whose parent has no content id makes a manifest that the parser refuses.
use mathlib.Core.Path.{subst}
use zeno_plugin.Prelude.{
  ℕ, ◌≡◌, refl, sym, ap, false, none, some, List, [], ◌∷◌, ◌++◌, length, slice,
}
use zeno_plugin.Prelude.Text.{Text, codes, text_eq, strip, lower}
use zeno_plugin.Prelude.Result.{Result, ok, err, ◌>>=◌}
use zeno_plugin.Prelude.Int.{ℤ, pos}
use zeno_plugin.Chunking.{Bytes, ChunkingConfig}
use zeno_plugin.Manifest.{
  segments_not_a_list, ManifestSegment, ParseError, segment_invalid, raw_chunk, zstd_dict_patch,
  parse_patch, parse_chunk, parse_segments, parse_manifest, try_parse_manifest, parse_object,
  parse_body, parse_chunking, payload_v3, int_or, size_of, items_of, num,
}
use zeno_plugin.Manifest.RoundTrip.{parse_loaded}
use zeno_plugin.Manifest.Value.{
  Json, int, Python, get, arr, obj, item, nil, Items, Fields, end, or_default,
}
use zeno_plugin.Entropy.{EntropySegment}
use zeno_plugin.Client.{Api, ensure_blob}
use zeno_plugin.Prelude.Action.{Action, Outcome, Triple, Triple-bind, Triple-weaken}
use zeno_plugin.Omni.{
  Engine, IngestRequest, Progress, or_empty, chunk_source, patch_segment, manifest_v3,
  manifest_json, segments_json, patch_fields, raw_fields,
}

module _ {A : Type 0} where
  record Refused (r : Result ParseError A) : Type 0 where
    cause : ParseError
    refused : r ≡ err cause

module _ {A B : Type 0} where
  -- a chain is refused where its first step is, or where its rest is whatever that gave
  first-Refused :
      (m : Result ParseError A) (f : A → Result ParseError B) → Refused m → Refused (m >>= f)
  first-Refused m f r = record { cause = r.cause; refused = ap (λ n. n >>= f) r.refused }

  rest-Refused :
      (m : Result ParseError A) (f : A → Result ParseError B)
      → ((a : A) → Refused (f a))
      → Refused (m >>= f)
  rest-Refused (ok a) f r = r a
  rest-Refused (err e) f r = record { cause = e; refused = refl }

listed : (py : Python) (xs : Items) → items_of py segments_not_a_list (arr xs) ≡ ok xs
listed py nil = refl
listed py (item x xs) = refl

module _ (py : Python) where
  orphan-Refused :
      (a b : ℤ) (d p : Text) (size n : ℕ)
      → Refused (parse_patch py (patch_fields [] a b d p size n))
  unfolding parse_patch get text_eq strip lower
  orphan-Refused a b d p size n = rest-Refused (int_or py (int a) 0) _ λ i.
      rest-Refused (int_or py (int b) 0) _ λ j.
        rest-Refused (size_of py segment_invalid (num size)) _ λ k.
          rest-Refused (size_of py segment_invalid (num n)) _
            λ l. record { cause = segment_invalid; refused = refl }

  parse_segments-Refused :
      (ss ts : List ManifestSegment) (a b : ℤ) (d p : Text) (size n : ℕ)
      → Refused (parse_segments py (segments_json (ss ++ zstd_dict_patch [] a b d p size n ∷ ts)))
  unfolding parse_segments segments_json get text_eq strip lower
  parse_segments-Refused [] ts a b d p size n =
      first-Refused (parse_patch py (patch_fields [] a b d p size n)) _
        (orphan-Refused a b d p size n)
  parse_segments-Refused (raw_chunk h k ∷ ss) ts a b d p size n =
      rest-Refused (parse_chunk py segment_invalid (raw_fields h k)) _ λ c.
        first-Refused
          (parse_segments py (segments_json (ss ++ zstd_dict_patch [] a b d p size n ∷ ts))) _
          (parse_segments-Refused ss ts a b d p size n)
  parse_segments-Refused (zstd_dict_patch q i j e o m k ∷ ss) ts a b d p size n =
      rest-Refused (parse_patch py (patch_fields q i j e o m k)) _ λ c.
        first-Refused
          (parse_segments py (segments_json (ss ++ zstd_dict_patch [] a b d p size n ∷ ts))) _
          (parse_segments-Refused ss ts a b d p size n)

  body-Refused :
      (fs : Fields) (xs : Items)
      → get (codes "segments") fs ≡ arr xs
      → Refused (parse_segments py xs)
      → Refused (parse_body py false fs)
  unfolding parse_body
  body-Refused fs xs e r = rw (e, listed py xs) (first-Refused (parse_segments py xs) _ r)

  abbrev body_of : Json → Fields
  body_of (obj fs) = fs
  body_of _ = end

  object-Refused :
      (filename : Text) (size : ℕ) (whole : Text) (c : ChunkingConfig) (xs : Items) (omni : Json)
      → Refused (parse_segments py xs)
      → Refused (parse_object py (body_of (payload_v3 filename size whole c xs (some omni))))
  unfolding parse_object payload_v3 get text_eq
  object-Refused filename size whole c xs omni r =
      let fs = body_of (payload_v3 filename size whole c xs (some omni)) in
      rest-Refused (parse_chunking py (or_default (get (codes "chunking") fs) (obj end))) _
        λ k. first-Refused (parse_body py false fs) _ (body-Refused fs xs refl r)

  unreadable :
      (bytes : Bytes) → Refused (parse_manifest py bytes) → try_parse_manifest py bytes ≡ none
  unfolding try_parse_manifest
  unreadable bytes r = rw (r.refused, try_parse_manifest) refl

anything :
    {S A : Type 0} (m : Action Text S A)
    → Triple (λ _. Unit {0}) (λ _. Unit {0}) (λ _ _. Unit {0}) m
anything {S} {A} m = record { run = λ s h. either (m s).0 (m s).1 }
  where
    either : (r : Result Text A) (s : S) → Outcome (λ _. Unit {0}) (λ _ _. Unit {0}) r s
    either (ok a) s = (tt, tt)
    either (err e) s = tt

-- The one segment that a patch adds to the manifest.
module _ {S F : Type 0} (api : Api S) (en : Engine F) (req : IngestRequest F)
    (seg : EntropySegment F) (dict patch : Bytes) where
  abbrev entry : ManifestSegment
  entry =
      zstd_dict_patch (lower (strip (or_empty req.parent_content_id))) (pos seg.start) (pos seg.end)
        (en.hash dict) (en.hash patch) (length patch)
        (length (slice (chunk_source en req) seg.start seg.end))

  patch_segment-Entry :
      Triple
        (λ _. Unit {0})
        (λ _. Unit {0})
        (λ p _. p.segments ≡ entry ∷ [])
        (patch_segment api en req seg dict patch)
  unfolding patch_segment
  patch_segment-Entry = Triple-bind (anything (ensure_blob api dict (en.hash dict))) λ m.
      Triple-weaken (λ s h. tt)
        (Triple-bind (anything (ensure_blob api patch (en.hash patch)))
          λ n. record { run = λ s h. (tt, refl) })

  of_run :
      (s s' : S) (p : Progress)
      → patch_segment api en req seg dict patch s ≡ (ok p, s')
      → p.segments ≡ entry ∷ []
  of_run s s' p ran =
      (subst
        (λ (r : Result Text Progress × S).
          Outcome (λ _. Unit {0}) (λ q _. q.segments ≡ entry ∷ []) r.0 r.1)
        ran (patch_segment-Entry.run s tt)).1

loaded :
    (py : Python) (bytes : Bytes) (filename : Text) (size : ℕ) (whole : Text) (c : ChunkingConfig)
    (xs : Items) (omni : Json)
    → py.loads bytes ≡ some (payload_v3 filename size whole c xs (some omni))
    → parse_manifest py bytes
      ≡ parse_object py (body_of py (payload_v3 filename size whole c xs (some omni)))
unfolding payload_v3
loaded py bytes filename size whole c xs omni e = parse_loaded py bytes _ e

-- Where the parent of a file has no content id, the manifest of an ingest that made a patch, among
-- whatever other segments, is refused by the parser, and so is taken for no manifest: the codec is
-- supposed to read back what it wrote.
pub try_parse_manifest-orphan :
    {S F : Type 0} (api : Api S) (en : Engine F) (req : IngestRequest F) (seg : EntropySegment F)
    (dict patch : Bytes) (s s' : S) (p : Progress) (before after : List ManifestSegment)
    → strip (or_empty req.parent_content_id) ≡ []
    → patch_segment api en req seg dict patch s ≡ (ok p, s')
    → en.python.loads (manifest_v3 en req (before ++ (p.segments ++ after)))
      ≡ some (manifest_json en req (before ++ (p.segments ++ after)))
    → try_parse_manifest en.python (manifest_v3 en req (before ++ (p.segments ++ after))) ≡ none
unfolding lower
try_parse_manifest-orphan api en req seg dict patch s s' p before after blank ran codec =
    let made = of_run api en req seg dict patch s s' p ran in
    let orphan =
      parse_segments-Refused en.python before after (pos seg.start) (pos seg.end) (en.hash dict)
        (en.hash patch) (length patch) _ in
    let named = ap lower blank in
    let same : segments_json (before ++ (entry api en req seg dict patch ∷ after))
        ≡ segments_json (before ++ (p.segments ++ after)) =
      ap (λ ss. segments_json (before ++ (ss ++ after))) (sym made) in
    unreadable en.python (manifest_v3 en req (before ++ (p.segments ++ after))) (
      subst Refused (sym (loaded en.python _ req.filename _ _ req.chunking _ _ codec)) (
        object-Refused en.python req.filename _ _ req.chunking _ _ (
          subst (λ xs. Refused (parse_segments en.python xs)) same
            (subst
              (λ parent. Refused (
                parse_segments en.python (
                  segments_json (
                    before
                    ++ (zstd_dict_patch parent (pos seg.start) (pos seg.end) (en.hash dict)
                          (en.hash patch) (length patch)
                          (length (slice (chunk_source en req) seg.start seg.end))
                        ∷ after)))))
              (sym named) orphan))))
