-- ===== src/Omni/Written.antt =====
-- Segments are written as the bytes that they stand for, or BLAKE3 has a collision.
use mathlib.Core.Path.{subst}
use mathlib.Core.List.{append-nil, append_assoc}
use zeno_plugin.Prelude.{
  ℕ, zero, suc, ◌≡◌, ◌≢◌, refl, sym, ap, ◌∙◌, ◌⊎◌, inl, inr, Option, none, some, List, [], ◌∷◌,
  ◌++◌, max, length, Bool-cases, arith, ◌==◌, false,
}
use zeno_plugin.Prelude.Text.{Text, text_eq, text_eq_iff, strip, lower}
use zeno_plugin.Prelude.Result.{Result, ok}
use zeno_plugin.Prelude.Int.{ℤ, pos}
use zeno_plugin.Prelude.Action.{Action, bind_ok}
use zeno_plugin.Chunking.{Bytes}
use zeno_plugin.Manifest.{ManifestSegment, raw_chunk, zstd_dict_patch, clean, num}
use zeno_plugin.Manifest.RoundTrip.{IsClean, clean-str}
use zeno_plugin.Manifest.Value.{Python, get, str, or_default}
use zeno_plugin.Client.{Api}
use zeno_plugin.Client.Laws.{View, KeepsBlobs, Lawful, Serves}
use zeno_plugin.Client.Stored.{AllHas, AllHas-keep}
use zeno_plugin.Omni.{raw_fields, patch_fields, segment_fields, segments_json}
use zeno_plugin.Omni.Patch.{Zstd}
use zeno_plugin.Omni.Materialize.{
  Site, at_server, write, write_raw, write_with, read_int, write_segment, write_segments,
}
use zeno_plugin.Omni.Restored.{Piece, Restores, segment_hashes}

-- Two byte strings with one digest.
abbrev pub Collision : (Bytes → Text) → Type 0
Collision hash = (x : Bytes) × (y : Bytes) × (x ≢ y) × (hash x ≡ hash y)

same_bytes : (hash : Bytes → Text) (x y : Bytes) → hash x ≡ hash y → Collision hash ⊎ (x ≡ y)
same_bytes hash x y e = elim (Bool-cases (text_eq x y)) [
  | inl t ↦ inr ((text_eq_iff x y).0 t)
  | inr f ↦ inl (x, y, (λ p. absurd (ground (arith, (text_eq_iff x y).1 p))), e)
]

module _ {S : Type 0} (view : View S) where
  -- `m` returns at `s`, with `x` written behind `old`
  abbrev pub Wrote : Bytes → Action Text (Site S) (Unit {0}) → Site S → Type 0
  Wrote x m s =
      (t : Site S) × (m s ≡ (ok tt, t))
      × ((old : Bytes) → s.out ≡ some old → t.out ≡ some (old ++ x))
      × KeepsBlobs view s.server t.server

module _ {S : Type 0} (view : View S) (api : Api S) (hash : Bytes → Text)
    (laws : Lawful view api hash) (serves : Serves view api hash)
    (clean_hash : (b : Bytes) → IsClean (hash b)) (py : Python) (zstd : Option Zstd) where
  abbrev Fetched : Text → Bytes → Site S → Type 0
  Fetched h x s =
      (t : Site S) × (at_server (api.get_blob_bytes h) s ≡ (ok x, t))
      × (t.out ≡ s.out)
      × KeepsBlobs view s.server t.server

  fetched :
      (h : Text) (x : Bytes) (s : Site S)
      → view.Has h s.server
      → h ≡ hash x
      → Collision hash ⊎ Fetched h x s
  fetched h x s there e =
      let (b, got, good) = serves.get_returns h s.server there in
      elim (same_bytes hash b x (good ∙ e)) [
        | inl c ↦ inl c
        | inr same ↦ inr (
          record s { server = (api.get_blob_bytes h s.server).1 },
          ap
              (λ (r : Result Text Bytes).
                (r, record s { server = (api.get_blob_bytes h s.server).1 }))
              (got ∙ ap ok same),
          refl,
          (laws.get_keeps h s.server).0,
        )
      ]

  -- as `fetched`, with the hash read from a manifest
  named :
      (h : Text) (x : Bytes) (s : Site S)
      → view.Has h s.server
      → h ≡ hash x
      → Collision hash ⊎ Fetched (clean py (str h)) x s
  named h x s there e =
      subst (λ k. Collision hash ⊎ Fetched k x s)
        (sym (clean-str py h (subst IsClean (sym e) (clean_hash x)))) (fetched h x s there e)

  appended : (x old : Bytes) (t : Site S) → t.out ≡ some old → (write x t).1.out ≡ some (old ++ x)
  appended x old t e = rw e refl

  raw-Wrote :
      (h : Text) (n : ℕ) (x : Bytes) (s : Site S)
      → h ≡ hash x
      → view.Has h s.server
      → Collision hash ⊎ Wrote view x (write_segment api py zstd (raw_fields h n)) s
  unfolding write_segment write_raw get text_eq strip lower
  raw-Wrote h n x s e there = elim (named h x s there e) [
    | inl c ↦ inl c
    | inr (t, got, same, keeps) ↦ inr (
      (write x t).1,
      bind_ok (at_server (api.get_blob_bytes (clean py (str h)))) _ s got,
      λ old was. appended x old t (same ∙ was),
      keeps,
    )
  ]

module _ {S : Type 0} (view : View S) (api : Api S) (hash : Bytes → Text)
    (laws : Lawful view api hash) (serves : Serves view api hash)
    (clean_hash : (b : Bytes) → IsClean (hash b)) (py : Python) (z : Zstd) where
  patch-Wrote :
      (parent : Text) (a b : ℤ) (d p : Text) (size n : ℕ) (dict patch x : Bytes) (s : Site S)
      → d ≡ hash dict
      → p ≡ hash patch
      → n ≡ length x
      → z.decompress dict patch (max 1 (length x)) ≡ ok x
      → view.Has d s.server
      → view.Has p s.server
      → Collision hash
        ⊎ Wrote view x (write_segment api py (some z) (patch_fields parent a b d p size n)) s
  unfolding write_segment write_with get text_eq strip lower
  patch-Wrote parent a b d p size n dict patch x s ed ep en u has_d has_p =
      elim (named view api hash laws serves clean_hash py (some z) d dict s has_d ed) [
        | inl c ↦ inl c
        | inr (t, got, same, keeps) ↦
            elim (named view api hash laws serves clean_hash py (some z) p patch t (keeps p has_p)
              ep) [
                | inl c ↦ inl c
                | inr (t', got', same', keeps') ↦ inr (
                  (write x t').1,
                  bind_ok (read_int api py (some z) (or_default (num n) (num 0))) _ s
                        (read_size n s)
                      ∙ bind_ok (at_server (api.get_blob_bytes (clean py (str d)))) _ s got
                      ∙ bind_ok (at_server (api.get_blob_bytes (clean py (str p)))) _ t got'
                      ∙ bind_ok (λ s. (z.decompress dict patch (max 1 n), s)) _ t'
                          (ap (λ r. (r, t')) (rw en u)),
                  λ old was.
                      appended view api hash laws serves clean_hash py (some z) x old t'
                        (same' ∙ same ∙ was),
                  λ h has. keeps' h (keeps h has),
                )
              ]
      ]
    where
      read_size :
          (n : ℕ) (s : Site S)
          → read_int api py (some z) (or_default (num n) (num 0)) s ≡ (ok (pos n), s)
      read_size zero s = refl
      read_size (suc n) s = let e : (suc n == 0) ≡ false = ground arith in rw e refl

module _ {S : Type 0} (view : View S) (api : Api S) (hash : Bytes → Text)
    (laws : Lawful view api hash) (serves : Serves view api hash)
    (clean_hash : (b : Bytes) → IsClean (hash b)) (py : Python) where
  segment-Wrote :
      (zstd : Option Zstd) (seg : ManifestSegment) (ss : List ManifestSegment) (x : Bytes)
      (s : Site S)
      → Piece hash zstd seg x
      → AllHas view (segment_hashes (seg ∷ ss)) s.server
      → Collision hash
        ⊎ (Wrote view x (write_segment api py zstd (segment_fields seg)) s
            × AllHas view (segment_hashes ss) s.server)
  segment-Wrote zstd (raw_chunk h n) ss x s (e, size) (has, rest) =
      elim (raw-Wrote view api hash laws serves clean_hash py zstd h n x s e has) [
        | inl c ↦ inl c
        | inr w ↦ inr (w, rest)
      ]
  segment-Wrote none (zstd_dict_patch parent a b d p size n) ss x s (dict, patch, ed, ep, en, u)
        has =
      absurd u
  segment-Wrote (some z) (zstd_dict_patch parent a b d p size n) ss x s (dict, patch, ed, ep, en, u)
        (has_d, (has_p, rest)) =
      elim (patch-Wrote view api hash laws serves clean_hash py z parent a b d p size n dict patch x
        s ed ep en u has_d has_p) [ inl c ↦ inl c | inr w ↦ inr (w, rest) ]

  pub segments-Wrote :
      (zstd : Option Zstd) (ss : List ManifestSegment) (source : Bytes) (s : Site S)
      → Restores hash zstd ss source
      → AllHas view (segment_hashes ss) s.server
      → Collision hash ⊎ Wrote view source (write_segments api py zstd (segments_json ss)) s
  unfolding write_segments segments_json
  segments-Wrote zstd [] source s e has =
      inr (
        s,
        refl,
        (λ old was. was ∙ ap some (sym (append-nil old) ∙ ap (◌++◌ old) (sym e))),
        λ h k. k,
      )
  segments-Wrote zstd (seg ∷ ss) source s (x, rest, e, p, r) has =
      elim (segment-Wrote zstd seg ss x s p has) [
        | inl c ↦ inl c
        | inr ((t, ran, out, keeps), left) ↦
            elim (segments-Wrote zstd ss rest t r
              (AllHas-keep view (segment_hashes ss) s.server t.server keeps left)) [
                | inl c ↦ inl c
                | inr (t', ran', out', keeps') ↦ inr (
                  t',
                  bind_ok (write_segment api py zstd (segment_fields seg)) _ s ran ∙ ran',
                  (λ old was.
                      out' (old ++ x) (out old was)
                      ∙ ap some (append_assoc old x rest ∙ ap (◌++◌ old) (sym e))),
                  λ h k. keeps' h (keeps h k),
                )
              ]
      ]
