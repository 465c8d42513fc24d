-- ===== src/Tests/Caches.antt =====
-- The cache, its index and its eviction, on a small cache.
use zeno_plugin.Prelude.{false, ℕ, ◌≡◌, refl, true, none, some, [], ◌∷◌, arith, if◌then◌else◌}
use zeno_plugin.Prelude.Text.{Text, codes, text_eq, strip, lower}
use zeno_plugin.Prelude.Result.{ok}
use zeno_plugin.Prelude.Int.{pos}
use zeno_plugin.Prelude.Action.{Outcome, pure}
use zeno_plugin.Manifest.Value.{Python}
use zeno_plugin.Index.{CacheEntry, Table, upsert_entry, get_entry, not_in, eviction_candidates}
use zeno_plugin.Index.Rows.{Unique, stored, get_entry-upsert_entry}
use zeno_plugin.Index.Order.{Front, eviction_candidates-Front}
use zeno_plugin.Cache.Disk.{CacheState, blob_path, download_path}
use zeno_plugin.Cache.{Env, should_verify_hash, evict_if_needed, is_valid_hit, download}
use zeno_plugin.Cache.Ensure.{ensure_cached, ensure_uri_cached}
use zeno_plugin.Cache.Stale.{ensure_cached_stale}
use zeno_plugin.Cache.Succeeds.{Returns, ensure_cached-Returns}
use zeno_plugin.Cache.Eviction.{Trimmed, evict_if_needed-Trimmed}
use zeno_plugin.Cache.Claims.{Sound}
use zeno_plugin.Cache.Soundness.{Present}
use zeno_plugin.Cache.Entries.{SafeLock, ensure_uri_cached-Sound}

abbrev row : Text → ℕ → ℕ → CacheEntry
row cid size used = record {
  content_id = cid;
  filename = codes "f";
  rel_path = blob_path cid (codes "f");
  size_bytes = size;
  last_accessed_at = used;
  created_at = 0;
}

abbrev rows : Table
rows = row (codes "aa") 4 7 ∷ row (codes "bb") 5 3 ∷ row (codes "cc") 6 9 ∷ []

abbrev full : CacheState
full = record { files = λ p. some (codes "x"); entries = rows; clock = 10 }

rows-Unique : Unique rows
unfolding text_eq
rows-Unique = ((refl, (refl, tt)), ((refl, tt), (tt, tt)))

abbrev no_json : Python
no_json = record { loads = λ _. none; dumps = λ _. []; render = λ _. []; int_of_text = λ _. none }

-- A server whose blobs are their own content ids, and a lock that is free.
abbrev small_env : Env
small_env = record {
  config = record {
    max_bytes = 9;
    verify_content_hash = true;
    verify_sha256 = none;
    verify_size = true;
  };
  hash = λ b. b;
  python = no_json;
  client = record {
    resolve = λ _.
        ok
          record { content_id = codes " AB "; filename = codes "scene.blend"; size = some (pos 2) };
    head_blob = λ _. ok none;
    get_blob = λ cid. ok cid;
    get_blob_bytes = λ cid. ok cid;
    first_blob_bytes = λ cid. ok cid;
  };
  decompress = none;
  lock = λ _. pure tt;
}

free_lock : SafeLock small_env
free_lock p = record { run = λ s h. (h, tt) }

abbrev fresh : CacheState
fresh = record { files = λ _. none; entries = []; clock = 1 }

fresh-Sound : Sound small_env.hash fresh
fresh-Sound = ((λ p b h there claim. absurd cc), tt, tt)

ensure_uri_cached-Sound_example :
    Outcome
      (Sound small_env.hash)
      Present
      (ensure_uri_cached small_env (codes "asset://a") fresh).0
      (ensure_uri_cached small_env (codes "asset://a") fresh).1
unfolding should_verify_hash
ensure_uri_cached-Sound_example =
    ensure_uri_cached-Sound small_env refl free_lock (codes "asset://a") fresh fresh-Sound

ensure_cached-Returns_example :
    Returns
      (blob_path (lower (strip (codes "AB"))) (strip (codes "scene.blend ")))
      (codes "ab")
      (ensure_cached small_env (codes "AB") (codes "scene.blend ") (some (pos 2)) fresh)
unfolding lower strip
ensure_cached-Returns_example =
    ensure_cached-Returns small_env (codes "AB") (codes "scene.blend ") (some (pos 2)) (codes "ab")
      fresh fresh-Sound refl refl refl refl refl refl

-- a file of three bytes where two are asked for
abbrev damaged : CacheState
damaged = record { files = λ _. some (codes "xyz"); entries = []; clock = 1 }

ensure_cached_stale_example :
    let p = blob_path (lower (strip (codes "AB"))) (strip (codes "scene.blend ")) in
    let r = ensure_cached small_env (codes "AB") (codes "scene.blend ") (some (pos 2)) damaged in
    (is_valid_hit small_env p (some (pos 2)) damaged ≡ false)
    × (r
        ≡ download small_env
            (lower (strip (codes "AB")))
            (strip (codes "scene.blend "))
            (some (pos 2))
            damaged)
    × Returns p (codes "xyz") r
    × (is_valid_hit small_env p (some (pos 2)) r.1 ≡ false)
    × (r.1.files (download_path (lower (strip (codes "AB"))) (strip (codes "scene.blend "))) ≡ none)
unfolding lower strip
ensure_cached_stale_example =
    ensure_cached_stale small_env (codes "AB") (codes "scene.blend ") (some (pos 2)) (codes "ab")
      (codes "xyz") damaged tt tt refl refl refl refl refl refl refl

evict_if_needed-Trimmed_example :
    ((evict_if_needed small_env (codes "bb" ∷ []) full).0 ≡ ok tt)
    × Trimmed 9 (codes "bb" ∷ []) full (evict_if_needed small_env (codes "bb" ∷ []) full).1
evict_if_needed-Trimmed_example =
    evict_if_needed-Trimmed small_env (codes "bb" ∷ []) full rows-Unique (omega arith)

eviction_candidates-Front_example :
    Front (not_in (codes "bb" ∷ [])) (eviction_candidates (codes "bb" ∷ []) 25 rows) rows
eviction_candidates-Front_example = eviction_candidates-Front (codes "bb" ∷ []) 25 rows rows-Unique

get_entry-upsert_entry_example :
    get_entry
      (codes "aa")
      (upsert_entry (codes "aa") (codes "g") (blob_path (codes "aa") (codes "g")) 8 11 rows)
    ≡ (if text_eq (codes "aa") (codes "aa")
        then some (
            stored
              (codes "aa")
              (codes "g")
              (blob_path (codes "aa") (codes "g"))
              8
              11
              (get_entry (codes "aa") rows))
        else get_entry (codes "aa") rows)
get_entry-upsert_entry_example =
    get_entry-upsert_entry (codes "aa") (codes "g") (blob_path (codes "aa") (codes "g")) 8 11 rows
      (codes "aa")
