-- ===== src/Index.antt =====
-- zeno_client/cache_index.py: the SQLite table of cached files, as the list of its rows. A path is
-- the list of its components below the cache root, so `rel_path` is the text "a/b" taken apart.
-- `now` is `int(time.time())`. Rows with the same time come in table order; SQL leaves that open.
pub mod Rows
pub mod Sorting
pub mod Order
use zeno_plugin.Prelude.{
  ℕ, ◌+◌, Bool, true, false, not, Option, none, some, List, [], ◌∷◌, leb, if◌then◌else◌, take,
  select, any,
}
use zeno_plugin.Prelude.Text.{Text, text_eq}

abbrev pub FilePath : Type 0
FilePath = List Text

pub record CacheEntry : Type 0 where
  pub content_id : Text
  pub filename : Text
  pub rel_path : FilePath
  pub size_bytes : ℕ
  pub last_accessed_at : ℕ
  pub created_at : ℕ

abbrev pub Table : Type 0
Table = List CacheEntry

-- INSERT ... ON CONFLICT(content_id) DO UPDATE: a row that is there keeps `created_at`.
unfoldable pub upsert_entry : Text → Text → FilePath → ℕ → ℕ → Table → Table
upsert_entry cid filename rel_path size now [] =
    record {
      content_id = cid;
      filename = filename;
      rel_path = rel_path;
      size_bytes = size;
      last_accessed_at = now;
      created_at = now;
    }
    ∷ []
upsert_entry cid filename rel_path size now (e ∷ t) =
    if text_eq e.content_id cid
    then record e {
      filename = filename;
      rel_path = rel_path;
      size_bytes = size;
      last_accessed_at = now;
    }
      ∷ t
    else e ∷ upsert_entry cid filename rel_path size now t

-- UPDATE entries SET last_accessed_at
unfoldable pub touch : Text → ℕ → Table → Table
touch cid now [] = []
touch cid now (e ∷ t) =
    (if text_eq e.content_id cid then record e { last_accessed_at = now } else e) ∷ touch cid now t

-- DELETE FROM entries WHERE content_id
unfoldable pub delete_entry : Text → Table → Table
delete_entry cid = select (λ e. not (text_eq e.content_id cid))

-- SELECT COALESCE(SUM(size_bytes), 0)
unfoldable pub total_size_bytes : Table → ℕ
total_size_bytes [] = 0
total_size_bytes (e ∷ t) = e.size_bytes + total_size_bytes t

unfoldable pub get_entry : Text → Table → Option CacheEntry
get_entry cid [] = none
get_entry cid (e ∷ t) = if text_eq e.content_id cid then some e else get_entry cid t

-- ORDER BY last_accessed_at ASC
unfoldable pub insert_by_access : CacheEntry → Table → Table
insert_by_access e [] = e ∷ []
insert_by_access e (x ∷ t) =
    if leb e.last_accessed_at x.last_accessed_at then e ∷ x ∷ t else x ∷ insert_by_access e t

unfoldable pub order_by_access : Table → Table
unfolding insert_by_access
order_by_access [] = []
order_by_access (e ∷ t) = insert_by_access e (order_by_access t)

-- content_id NOT IN (...)
abbrev pub not_in : List Text → CacheEntry → Bool
not_in exclude e = not (any (λ x. text_eq e.content_id x) exclude)

unfoldable pub eviction_candidates : List Text → ℕ → Table → Table
eviction_candidates exclude limit t = take limit (order_by_access (select (not_in exclude) t))
