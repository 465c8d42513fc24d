-- ===== src/Cache/Eviction/Kept.antt =====
-- What eviction leaves alone: rows and files of the content ids that are excluded.
use zeno_plugin.Prelude.{
  ◌≡◌, refl, ◌∙◌, inl, inr, true, false, none, some, List, arith, any, not, if◌then◌else◌,
  Bool-cases,
}
use zeno_plugin.Prelude.Text.{Text, text_eq, text_eq_iff}
use zeno_plugin.Chunking.{Bytes}
use zeno_plugin.Index.{FilePath, CacheEntry, get_entry, not_in}
use zeno_plugin.Index.Rows.{All, All-delete, get_entry-delete_entry}
use zeno_plugin.Index.Sorting.{All_of_get}
use zeno_plugin.Cache.Disk.{CacheState, remove_file, path_eq}
use zeno_plugin.Cache.{evict_entry}
use zeno_plugin.Cache.Eviction.{Evicts, stop, evict}

-- Eviction makes no file: what is there afterwards was there before, with the same bytes.
pub Evicts_no_new_file :
    {max_bytes : _} {exclude : List Text} {s s' : CacheState}
    → Evicts max_bytes exclude s s'
    → (p : FilePath) (b : Bytes) → s'.files p ≡ some b
    → s.files p ≡ some b
unfolding evict_entry remove_file
Evicts_no_new_file stop p b h = h
Evicts_no_new_file {s} (evict e m w) p b h =
    let there = Evicts_no_new_file w p b h in
    elim (Bool-cases (path_eq e.rel_path p)) [
      | inl same ↦ absurd (ground (arith, same, there))
      | inr other ↦ rw other at there
    ]

-- A property of all rows is kept.
pub Evicts-All :
    {max_bytes : _} {exclude : List Text} {s s' : CacheState} (P : CacheEntry → Type 0)
    → Evicts max_bytes exclude s s'
    → All P s.entries
    → All P s'.entries
unfolding evict_entry remove_file
Evicts-All P stop a = a
Evicts-All {s} P (evict e m w) a = Evicts-All P w (All-delete P e.content_id s.entries a)

-- A file that belongs to no row that may go is kept.
pub Evicts_keeps_file :
    {max_bytes : _} {exclude : List Text} {s s' : CacheState} (p : FilePath)
    → Evicts max_bytes exclude s s'
    → All (λ e. not_in exclude e ≡ true → path_eq e.rel_path p ≡ false) s.entries
    → s'.files p ≡ s.files p
unfolding evict_entry remove_file
Evicts_keeps_file p stop a = refl
Evicts_keeps_file {exclude} {s} p (evict e (big, least, found, allowed) w) a =
    let other = All_of_get _ e.content_id s.entries e found a allowed in
    Evicts_keeps_file p w (All-delete _ e.content_id s.entries a) ∙ rw other refl

-- An excluded content id finds the row that it found before.
pub Evicts_keeps_row :
    {max_bytes : _} {exclude : List Text} {s s' : CacheState} (cid : Text)
    → Evicts max_bytes exclude s s'
    → any (λ y. text_eq cid y) exclude ≡ true
    → get_entry cid s'.entries ≡ get_entry cid s.entries
unfolding evict_entry remove_file
Evicts_keeps_row cid stop x = refl
Evicts_keeps_row {exclude} {s} cid (evict e (big, least, found, allowed) w) x =
    Evicts_keeps_row cid w x
    ∙ get_entry-delete_entry e.content_id cid s.entries
    ∙ elim (Bool-cases (text_eq e.content_id cid))
        as (λ b.
          (if text_eq e.content_id cid then none else get_entry cid s.entries)
          ≡ get_entry cid s.entries) [
            | inl same ↦
                let eq = (text_eq_iff e.content_id cid).0 same in
                let held : not (any (λ y. text_eq cid y) exclude) ≡ true = rw eq at allowed in
                absurd (ground (arith, x, held))
            | inr other ↦ rw other refl
          ]
