-- ===== src/Index/Rows.antt =====
-- Rows of the index: one for each content id, found by it, and what each statement leaves alone.
use zeno_plugin.Prelude.{
  ℕ, ◌+◌, ◌≡◌, refl, ap, inl, inr, false, Option, none, some, [], ◌∷◌, arith, if◌then◌else◌, length,
  Bool-cases,
}
use zeno_plugin.Prelude.Text.{Text, text_eq, text_eq_iff}
use zeno_plugin.Index.{
  FilePath, CacheEntry, Table, upsert_entry, delete_entry, total_size_bytes, get_entry,
}

-- Every row of a table meets `P`.
abbrev pub All : (CacheEntry → Type 0) → Table → Type 0
All P [] = Unit
All P (e ∷ t) = P e × All P t

-- No row has this content id.
abbrev pub Free : Text → Table → Type 0
Free cid = All (λ e. text_eq e.content_id cid ≡ false)

-- PRIMARY KEY
abbrev pub Unique : Table → Type 0
Unique [] = Unit
Unique (e ∷ t) = Free e.content_id t × Unique t

-- what `upsert_entry` answers for a content id
abbrev pub stored : Text → Text → FilePath → ℕ → ℕ → Option CacheEntry → CacheEntry
stored cid filename rel_path size now none = record {
  content_id = cid;
  filename = filename;
  rel_path = rel_path;
  size_bytes = size;
  last_accessed_at = now;
  created_at = now;
}
stored cid filename rel_path size now (some e) = record e {
  filename = filename;
  rel_path = rel_path;
  size_bytes = size;
  last_accessed_at = now;
}

-- After an upsert, its content id finds the new values, with the row's old creation time where
-- there was a row, and every other content id finds what it found before.
pub get_entry-upsert_entry :
    (cid filename : Text) (rel_path : FilePath) (size now : ℕ) (t : Table) (k : Text)
    → get_entry k (upsert_entry cid filename rel_path size now t) ≡ (
        if text_eq cid k
        then some (stored cid filename rel_path size now (get_entry cid t))
        else get_entry k t)
unfolding get_entry upsert_entry
get_entry-upsert_entry cid filename rel_path size now [] k = ground arith
get_entry-upsert_entry cid filename rel_path size now (e ∷ t) k = ground (
  arith,
  text_eq_iff e.content_id cid,
  text_eq_iff e.content_id k,
  text_eq_iff cid k,
  get_entry-upsert_entry cid filename rel_path size now t k,
)

Free-upsert :
    (k cid filename : Text) (rel_path : FilePath) (size now : ℕ) (t : Table)
    → text_eq cid k ≡ false
    → Free k t
    → Free k (upsert_entry cid filename rel_path size now t)
unfolding upsert_entry
Free-upsert k cid filename rel_path size now [] h f = (h, tt)
Free-upsert k cid filename rel_path size now (e ∷ t) h (a, f) =
    elim (Bool-cases (text_eq e.content_id cid)) [
      | inl same ↦ rw same (a, f)
      | inr other ↦ rw other (a, Free-upsert k cid filename rel_path size now t h f)
    ]

pub upsert_entry-Unique :
    (cid filename : Text) (rel_path : FilePath) (size now : ℕ) (t : Table)
    → Unique t
    → Unique (upsert_entry cid filename rel_path size now t)
unfolding upsert_entry
upsert_entry-Unique cid filename rel_path size now [] u = (tt, tt)
upsert_entry-Unique cid filename rel_path size now (e ∷ t) (f, u) =
    elim (Bool-cases (text_eq e.content_id cid)) [
      | inl same ↦ rw same (f, u)
      | inr other ↦ rw other (
        Free-upsert e.content_id cid filename rel_path size now t
            (ground (arith, text_eq_iff e.content_id cid, text_eq_iff cid e.content_id)) f,
        upsert_entry-Unique cid filename rel_path size now t u,
      )
    ]

pub All-upsert :
    (P : CacheEntry → Type 0) (cid filename : Text) (rel_path : FilePath) (size now : ℕ) (t : Table)
    → P (stored cid filename rel_path size now none)
    → ((e : CacheEntry) → e.content_id ≡ cid → P (stored cid filename rel_path size now (some e)))
    → All P t
    → All P (upsert_entry cid filename rel_path size now t)
unfolding upsert_entry
All-upsert P cid filename rel_path size now [] new old a = (new, tt)
All-upsert P cid filename rel_path size now (e ∷ t) new old (q, a) =
    elim (Bool-cases (text_eq e.content_id cid)) [
      | inl same ↦ rw same (old e ((text_eq_iff e.content_id cid).0 same), a)
      | inr other ↦ rw other (q, All-upsert P cid filename rel_path size now t new old a)
    ]

pub All-delete :
    (P : CacheEntry → Type 0) (cid : Text) (t : Table) → All P t → All P (delete_entry cid t)
unfolding delete_entry
All-delete P cid [] a = tt
All-delete P cid (e ∷ t) (p, a) = elim (Bool-cases (text_eq e.content_id cid)) [
  | inl same ↦ rw same (All-delete P cid t a)
  | inr other ↦ rw other (p, All-delete P cid t a)
]

pub delete_entry-Unique : (cid : Text) (t : Table) → Unique t → Unique (delete_entry cid t)
unfolding delete_entry
delete_entry-Unique cid [] u = tt
delete_entry-Unique cid (e ∷ t) (f, u) = elim (Bool-cases (text_eq e.content_id cid)) [
  | inl same ↦ rw same (delete_entry-Unique cid t u)
  | inr other ↦ rw other (
    All-delete (λ x. text_eq x.content_id e.content_id ≡ false) cid t f,
    delete_entry-Unique cid t u,
  )
]

-- After a delete, its content id finds nothing, and every other one what it found before.
pub get_entry-delete_entry :
    (cid k : Text) (t : Table)
    → get_entry k (delete_entry cid t) ≡ (if text_eq cid k then none else get_entry k t)
unfolding get_entry delete_entry
get_entry-delete_entry cid k [] = ground arith
get_entry-delete_entry cid k (e ∷ t) = ground (
  arith,
  text_eq_iff e.content_id cid,
  text_eq_iff e.content_id k,
  text_eq_iff cid k,
  get_entry-delete_entry cid k t,
)

-- A row that is there makes the table shorter and lighter when it is deleted.
pub delete_entry_found :
    (cid : Text) (t : Table) (e : CacheEntry)
    → Unique t
    → get_entry cid t ≡ some e
    → (length (delete_entry cid t) + 1 ≡ length t)
      × (total_size_bytes (delete_entry cid t) + e.size_bytes ≡ total_size_bytes t)
unfolding get_entry delete_entry total_size_bytes
delete_entry_found cid [] e u h = cc
delete_entry_found cid (x ∷ t) e (f, u) h = elim (Bool-cases (text_eq x.content_id cid)) [
  | inl same ↦
      let absent : delete_entry cid t ≡ t =
        delete_entry_absent t (rw ((text_eq_iff x.content_id cid).0 same) at f) in
      ground (arith, same, absent)
  | inr other ↦ ground (arith, other, delete_entry_found cid t e u)
]
  where
    delete_entry_absent : (t : Table) → Free cid t → delete_entry cid t ≡ t
    delete_entry_absent [] f = refl
    delete_entry_absent (y ∷ t) (a, f) = rw a (ap (◌∷◌ y) (delete_entry_absent t f))
