-- ===== src/Usd/Order.antt =====
-- The archive that comes out does not depend on the order of the entries that go in.
use mathlib.Core.List.{Permᴰ}
use zeno_plugin.Prelude.{
  ◌≡◌, refl, ap, ◌∙◌, true, false, Bool-cases, inl, inr, List, [], ◌∷◌, arith, if◌then◌else◌, ℕ,
  zero, suc, some, is_empty,
}
use zeno_plugin.Prelude.Text.{Text}
use zeno_plugin.Prelude.Result.{Result}
use zeno_plugin.Chunking.{Bytes}
use zeno_plugin.Canonical.{is_on}
use zeno_plugin.Usd.{
  ZipFile, UsdError, usdz, detect_usd_format, text_le, insert_name, sorted_names, entry_payload,
  repack_entries, repack_usdz_deterministic, canonicalize,
}

text_le_antisym : (s t : Text) → text_le s t ≡ true → text_le t s ≡ true → s ≡ t
unfolding text_le
text_le_antisym [] [] h k = refl
text_le_antisym [] (d ∷ t) h k = absurd (cc)
text_le_antisym (c ∷ s) [] h k = absurd (cc)
text_le_antisym (c ∷ s) (d ∷ t) h k =
    let same : c ≡ d = ground arith in
    let e = text_le_antisym s t (ground arith) (ground arith) in cc

text_le_total : (s t : Text) → text_le s t ≡ false → text_le t s ≡ true
unfolding text_le
text_le_total [] t h = absurd (cc)
text_le_total (c ∷ s) [] h = refl
text_le_total (c ∷ s) (d ∷ t) h = let ih = text_le_total s t in ground (arith, ih)

text_le_trans : (s t u : Text) → text_le s t ≡ true → text_le t u ≡ true → text_le s u ≡ true
unfolding text_le
text_le_trans [] t u h k = refl
text_le_trans (c ∷ s) [] u h k = absurd (cc)
text_le_trans (c ∷ s) (d ∷ t) [] h k = absurd (cc)
text_le_trans (c ∷ s) (d ∷ t) (e ∷ u) h k = let ih = text_le_trans s t u in ground (arith, ih)

insert-insert :
    (a b : Text) (names : List Text)
    → insert_name a (insert_name b names) ≡ insert_name b (insert_name a names)
unfolding insert_name
insert-insert a b [] = elim (Bool-cases (text_le a b)) [
  | inl ab ↦ elim (Bool-cases (text_le b a)) [
    | inl ba ↦ rw (text_le_antisym a b ab ba) refl
    | inr ba ↦ rw (ab, ba) refl
  ]
  | inr ab ↦ rw (ab, text_le_total a b ab) refl
]
insert-insert a b (n ∷ names) =
    let ih = insert-insert a b names in
    let same = text_le_antisym a b in
    let total_ab = text_le_total a b in
    let total_ba = text_le_total b a in
    let abn = text_le_trans a b n in
    let ban = text_le_trans b a n in ground (arith, ih, same, total_ab, total_ba, abn, ban)

keep : Text → List Text → List Text
keep name rest = if is_empty name then rest else insert_name name rest

keep-keep : (a b : Text) (names : List Text) → keep a (keep b names) ≡ keep b (keep a names)
unfolding keep
keep-keep [] b names = refl
keep-keep (c ∷ a) [] names = refl
keep-keep (c ∷ a) (d ∷ b) names = insert-insert (c ∷ a) (d ∷ b) names

sorted_names-Perm : {ns ms : List Text} → Permᴰ ns ms → sorted_names ns ≡ sorted_names ms
unfolding sorted_names keep
sorted_names-Perm Permᴰ.nil = refl
sorted_names-Perm (Permᴰ.cons {b = b} {l₁} {l₂} e p) = rw e (ap (keep b) (sorted_names-Perm p))
sorted_names-Perm (Permᴰ.swap {a' = a'} {b'} {l} e f) = rw (e, f) (keep-keep b' a' (sorted_names l))
sorted_names-Perm (Permᴰ.trans p q) = sorted_names-Perm p ∙ sorted_names-Perm q

module _ (zip : ZipFile) where
  entry_payload_same :
      (canon : Bytes → Result UsdError Bytes) (raw_data raw_other : Bytes) (name : Text)
      → zip.read raw_data name ≡ zip.read raw_other name
      → entry_payload zip canon raw_data name ≡ entry_payload zip canon raw_other name
  unfolding entry_payload
  entry_payload_same canon raw_data raw_other name e = rw (e, entry_payload) refl

  repack_entries_same :
      (canon : Bytes → Result UsdError Bytes) (raw_data raw_other : Bytes) (names : List Text)
      → ((name : Text) → zip.read raw_data name ≡ zip.read raw_other name)
      → repack_entries zip canon raw_data names ≡ repack_entries zip canon raw_other names
  unfolding repack_entries
  repack_entries_same canon raw_data raw_other [] reads = refl
  repack_entries_same canon raw_data raw_other (name ∷ names) reads =
      rw
        (
          entry_payload_same canon raw_data raw_other name (reads name),
          repack_entries_same canon raw_data raw_other names reads,
        )
        refl

  repack_same :
      (canon : Bytes → Result UsdError Bytes) (raw_data raw_other : Bytes)
      (names others : List Text)
      → zip.infolist raw_data ≡ some names
      → zip.infolist raw_other ≡ some others
      → Permᴰ names others
      → ((name : Text) → zip.read raw_data name ≡ zip.read raw_other name)
      → repack_usdz_deterministic zip canon raw_data ≡ repack_usdz_deterministic zip canon raw_other
  unfolding repack_usdz_deterministic
  repack_same canon raw_data raw_other names others i1 i2 p reads =
      rw
        (
          i1,
          i2,
          repack_usdz_deterministic,
          sorted_names-Perm p,
          repack_entries_same canon raw_data raw_other (sorted_names others) reads,
        )
        refl

-- Two archives with the same entries, in whatever order, have the same canonical form, where archives
-- are packed again.
pub canonicalize-Perm :
    (zip : ZipFile) (usdz_repack : Text) (depth : ℕ) (raw_data raw_other : Bytes)
    (names others : List Text)
    → is_on usdz_repack ≡ true
    → detect_usd_format raw_data ≡ usdz
    → detect_usd_format raw_other ≡ usdz
    → zip.infolist raw_data ≡ some names
    → zip.infolist raw_other ≡ some others
    → Permᴰ names others
    → ((name : Text) → zip.read raw_data name ≡ zip.read raw_other name)
    → canonicalize zip usdz_repack depth raw_data ≡ canonicalize zip usdz_repack depth raw_other
unfolding canonicalize
canonicalize-Perm zip usdz_repack zero raw_data raw_other names others on d1 d2 i1 i2 p reads = refl
canonicalize-Perm zip usdz_repack (suc depth) raw_data raw_other names others on d1 d2 i1 i2 p
      reads =
    rw (d1, d2, on, canonicalize)
      (repack_same zip (canonicalize zip usdz_repack depth) raw_data raw_other names others i1 i2 p
        reads)
