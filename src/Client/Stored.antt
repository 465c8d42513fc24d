-- ===== src/Client/Stored.antt =====
-- What each call keeps and stores on a server that is lawful, and that chunks are read back as they
-- were hashed.
use mathlib.Core.Path.{subst}
use zeno_plugin.Prelude.{
  ℕ, zero, suc, ◌+◌, ◌-◌, ◌≡◌, refl, sym, ap, ◌∙◌, inl, inr, true, List, [], ◌∷◌, ◌++◌, arith, take,
  drop, drop_all, slice, ◌≤◌, length-take, drop-take, take-take,
}
use zeno_plugin.Prelude.Text.{Text}
use zeno_plugin.Prelude.Result.{Result, ok, err}
use zeno_plugin.Prelude.Action.{
  Action, pure, ◌>>◌, Outcome, Triple, Triple-bind, Triple-if, Triple-weaken,
}
use zeno_plugin.Chunking.{Bytes, Chunk}
use zeno_plugin.Chunking.Cover.{Covers}
use zeno_plugin.Client.{Registration, Api, ensure_blob}
use zeno_plugin.Client.Laws.{View, KeepsBlobs, AddsNone, Lawful}

abbrev pub chunk_hashes : List Chunk → List Text
chunk_hashes [] = []
chunk_hashes (ch ∷ chs) = ch.content_hash ∷ chunk_hashes chs

-- Every chunk is the bytes of the file at its place, under their hash.
abbrev pub Honest : (Bytes → Text) → Bytes → List Chunk → Type 0
Honest hash file [] = Unit
Honest hash file (ch ∷ chs) =
    (hash (slice file ch.offset (ch.offset + ch.size)) ≡ ch.content_hash) × Honest hash file chs

pub drop-drop : {A : Type 0} (m n : ℕ) (xs : List A) → drop n (drop m xs) ≡ drop (m + n) xs
drop-drop zero n xs = ap (λ k. drop k xs) (omega arith)
drop-drop (suc m) n [] = drop_all n [] (omega arith) ∙ sym (drop_all (suc m + n) [] (omega arith))
drop-drop (suc m) n (x ∷ xs) =
    let e : suc m + n ≡ suc (m + n) = omega arith in
    drop-drop m n xs ∙ ap (λ k. drop k (x ∷ xs)) (sym e)

-- Chunks that cover a stretch of the file hash the bytes that stand at their places in it.
pub Covers-Honest :
    (hash : Bytes → Text) (file : Bytes) (offset n : ℕ) (chs : List Chunk)
    → Covers hash offset (take n (drop offset file)) chs
    → Honest hash file chs
Covers-Honest hash file offset n [] c = tt
Covers-Honest hash file offset n (ch ∷ chs) (at, size, good, c) =
    let width : (ch.offset + ch.size) - ch.offset ≡ ch.size = omega arith in
    let inside : ch.size ≤ n = omega (arith, length-take n (drop offset file)) in
    let tail : drop ch.size (take n (drop offset file))
        ≡ take (n - ch.size) (drop (offset + ch.size) file) =
      drop-take ch.size n (drop offset file)
      ∙ ap (take (n - ch.size)) (drop-drop offset ch.size file) in
    (
      ap (λ k. hash (take k (drop ch.offset file))) width
          ∙ ap (λ o. hash (take ch.size (drop o file))) at
          ∙ sym (ap hash (take-take ch.size n (drop offset file) inside))
          ∙ sym good,
      Covers-Honest hash file (offset + ch.size) (n - ch.size) chs
          (subst (λ r. Covers hash (offset + ch.size) r chs) tail c),
    )

outcome :
    {E S A : Type 0} (inv : S → Type 0) (post : A → S → Type 0) (r : Result E A) (s : S)
    → inv s
    → ((a : A) → r ≡ ok a → post a s)
    → Outcome inv post r s
outcome inv post (ok a) s i p = (i, p a refl)
outcome inv post (err e) s i p = i

-- a call by what it keeps, and by what it gives where it succeeds
pub call :
    {E S A : Type 0} {pre inv : S → Type 0} {post : A → S → Type 0} {m : Action E S A}
    → ((s : S) → pre s → inv (m s).1)
    → ((s : S) (a : A) → pre s → (m s).0 ≡ ok a → post a (m s).1)
    → Triple pre inv post m
call {inv} {post} {m} k p = record {
  run = λ s h. outcome inv post (m s).0 (m s).1 (k s h) (λ a. p s a h);
}

module _ {S : Type 0} (view : View S) where
  -- The blob of every registered version is there.
  abbrev pub Intact : S → Type 0
  Intact s = (x : Registration) → view.Registered x s → view.Has x.content_id s

  abbrev pub AllHas : List Text → S → Type 0
  AllHas [] s = Unit
  AllHas (h ∷ hs) s = view.Has h s × AllHas hs s

  abbrev pub Stored : List Text → S → Type 0
  Stored hs s = Intact s × AllHas hs s

  pub AllHas-keep : (hs : List Text) (s s' : S) → KeepsBlobs view s s' → AllHas hs s → AllHas hs s'
  AllHas-keep [] s s' k a = tt
  AllHas-keep (h ∷ hs) s s' k (p, a) = (k h p, AllHas-keep hs s s' k a)

  pub AllHas-append : (hs ks : List Text) (s : S) → AllHas hs s → AllHas ks s → AllHas (hs ++ ks) s
  AllHas-append [] ks s h k = k
  AllHas-append (x ∷ hs) ks s (p, h) k = (p, AllHas-append hs ks s h k)

  pub AllHas-split : (hs ks : List Text) (s : S) → AllHas (hs ++ ks) s → AllHas hs s × AllHas ks s
  AllHas-split [] ks s k = (tt, k)
  AllHas-split (x ∷ hs) ks s (p, a) = let (h, k) = AllHas-split hs ks s a in ((p, h), k)

  pub Intact-keep : (s s' : S) → KeepsBlobs view s s' × AddsNone view s s' → Intact s → Intact s'
  Intact-keep s s' (k, n) i x r = k x.content_id (i x (n x r))

module _ {S : Type 0} (view : View S) (api : Api S) (hash : Bytes → Text)
    (laws : Lawful view api hash) where
  pub exists-Stored :
      (hs : List Text) (h : Text)
      → Triple
          (Stored view hs)
          (Intact view)
          (λ b s. (b ≡ true → view.Has h s) × AllHas view hs s)
          (api.blob_exists h)
  exists-Stored hs h =
      call (λ s (i, a). Intact-keep view s _ (laws.exists_keeps h s) i)
        (λ s b (i, a) e. (
          (λ t. laws.exists_true h s (e ∙ ap ok t)),
          AllHas-keep view hs s _ (laws.exists_keeps h s).0 a,
        ))

  pub upload-Stored :
      (hs : List Text) (b : Bytes) (h : Text)
      → hash b ≡ h
      → Triple (Stored view hs) (Intact view) (λ _. AllHas view (h ∷ hs)) (api.upload b h)
  upload-Stored hs b h good =
      call (λ s (i, a). Intact-keep view s _ (laws.upload_keeps b h s) i)
        (λ s u (i, a) e.
          (laws.upload_stores b h s good e, AllHas-keep view hs s _ (laws.upload_keeps b h s).0 a))

  pub register-Stored :
      (hs : List Text) (r : Registration)
      → Triple
          (Stored view (r.content_id ∷ hs))
          (Intact view)
          (λ _. AllHas view (r.content_id ∷ hs))
          (api.register_version r)
  register-Stored hs r =
      call (λ s (i, (there, a)). registered s i there)
        (λ s reg (i, (there, a)) e.
          AllHas-keep view (r.content_id ∷ hs) s _ (laws.register_keeps r s) (there, a))
    where
      registered :
          (s : S)
          → Intact view s
          → view.Has r.content_id s
          → Intact view (api.register_version r s).1
      registered s i there x added = elim (laws.register_adds r x s added) [
        | inl own ↦
            laws.register_keeps r s x.content_id
              (subst (λ y. view.Has y.content_id s) (sym own) there)
        | inr old ↦ laws.register_keeps r s x.content_id (i x old)
      ]

  pub ensure_blob-Stored :
      (hs : List Text) (b : Bytes) (h : Text)
      → hash b ≡ h
      → Triple (Stored view hs) (Intact view) (λ _. AllHas view (h ∷ hs)) (ensure_blob api b h)
  unfolding ensure_blob
  ensure_blob-Stored hs b h good = Triple-bind (exists-Stored hs h) λ there.
      Triple-if there (pure 0) (api.upload b h >> pure 1)
        (λ t. record { run = λ s (i, (has, a)). (i, (has t, a)) })
        (λ _.
          Triple-weaken (λ s (i, (has, a)). (i, a))
            (Triple-bind (upload-Stored hs b h good) λ _. record { run = λ s h. h }))
