-- ===== src/Cache/Eviction.antt =====
-- The loop of `evict_if_needed`, as steps that each evict the least recently used row that may go.
pub mod Kept
use zeno_plugin.Prelude.{
  ℕ, zero, suc, ◌+◌, ◌≤◌, ◌<◌, ◌≡◌, refl, ◌⊎◌, inl, inr, Bool, true, false, Option, none, some,
  List, [], ◌∷◌, arith, leb, if◌then◌else◌, length, is_empty, Bool-cases,
}
use zeno_plugin.Prelude.Text.{Text}
use zeno_plugin.Prelude.Result.{ok}
use zeno_plugin.Index.{
  CacheEntry, Table, delete_entry, total_size_bytes, get_entry, not_in, eviction_candidates,
}
use zeno_plugin.Index.Rows.{All, Unique, delete_entry-Unique, delete_entry_found}
use zeno_plugin.Index.Order.{Least, Front, eviction_candidates-Front, no_candidates}
use zeno_plugin.Cache.Disk.{CacheState, remove_file}
use zeno_plugin.Cache.{Env, evict_entry, evict_batch, evict_loop, evict_if_needed}

-- The row may be evicted next: the cache is over its cap, the row is in the index and not
-- excluded, and no row that is not excluded was used before it.
abbrev pub MayEvict : ℕ → List Text → CacheEntry → CacheState → Type 0
MayEvict max_bytes exclude e s =
    (max_bytes < total_size_bytes s.entries)
    × Least (not_in exclude) e s.entries
    × (get_entry e.content_id s.entries ≡ some e)
    × (not_in exclude e ≡ true)

pub data Evicts (max_bytes : ℕ) (exclude : List Text) : CacheState → CacheState → Type 0 where
  stop : {s : CacheState} → Evicts max_bytes exclude s s
  evict :
      {s s' : CacheState} (e : CacheEntry)
      → MayEvict max_bytes exclude e s
      → Evicts max_bytes exclude (evict_entry e s) s'
      → Evicts max_bytes exclude s s'

abbrev join :
    {max_bytes : ℕ} {exclude : List Text} {s t u : CacheState}
    → Evicts max_bytes exclude s t
    → Evicts max_bytes exclude t u
    → Evicts max_bytes exclude s u
join stop v = v
join (evict e m w) v = evict e m (join w v)

-- Nothing more is to be done.
abbrev pub Settled : ℕ → List Text → CacheState → Type 0
Settled max_bytes exclude s =
    (total_size_bytes s.entries ≤ max_bytes) ⊎ All (λ e. not_in exclude e ≡ false) s.entries

batch-Evicts :
    (max_bytes : ℕ) (exclude : List Text) (es : Table) (s : CacheState)
    → Front (not_in exclude) es s.entries
    → Evicts max_bytes exclude s (evict_batch max_bytes es s)
unfolding evict_batch evict_entry remove_file
batch-Evicts max_bytes exclude [] s f = stop
batch-Evicts max_bytes exclude (e ∷ es) s (least, found, allowed, f) =
    elim (Bool-cases (leb (total_size_bytes s.entries) max_bytes)) [
      | inl fits ↦ rw fits stop
      | inr over ↦
          let big : max_bytes < total_size_bytes s.entries = ground arith in
          rw over (
            evict e (big, least, found, allowed)
              (batch-Evicts max_bytes exclude es (evict_entry e s) f))
    ]

-- Eviction leaves one row for each content id, and no more rows than there were.
pub Evicts-Unique :
    {max_bytes : ℕ} {exclude : List Text} {s s' : CacheState}
    → Evicts max_bytes exclude s s'
    → Unique s.entries
    → Unique s'.entries × (length s'.entries ≤ length s.entries)
unfolding evict_entry remove_file
Evicts-Unique stop u = (u, omega arith)
Evicts-Unique {s} (evict e (big, least, found, allowed) w) u =
    let (v, short) = Evicts-Unique w (delete_entry-Unique e.content_id s.entries u) in
    (v, ground (arith, short, delete_entry_found e.content_id s.entries e u found))

-- A batch that is not empty evicts a row where the cache is over its cap.
batch_shrinks :
    (max_bytes : ℕ) (exclude : List Text) (e : CacheEntry) (es : Table) (s : CacheState)
    → Unique s.entries
    → Front (not_in exclude) (e ∷ es) s.entries
    → leb (total_size_bytes s.entries) max_bytes ≡ false
    → length (evict_batch max_bytes (e ∷ es) s).entries < length s.entries
unfolding evict_batch evict_entry remove_file
batch_shrinks max_bytes exclude e es s u (least, found, allowed, f) over =
    let rest =
      Evicts-Unique (batch-Evicts max_bytes exclude es (evict_entry e s) f)
        (delete_entry-Unique e.content_id s.entries u) in
    rw over (ground (arith, rest.1, delete_entry_found e.content_id s.entries e u found))

-- What an eviction that ends in `s'` is to be.
abbrev pub Trimmed : ℕ → List Text → CacheState → CacheState → Type 0
Trimmed max_bytes exclude s s' = Evicts max_bytes exclude s s' × Settled max_bytes exclude s'

no_rows : (max_bytes : ℕ) (t : Table) → length t ≤ 0 → total_size_bytes t ≤ max_bytes
unfolding total_size_bytes
no_rows max_bytes [] n = omega arith
no_rows max_bytes (e ∷ t) n = absurd (omega arith)

after_candidates :
    (fuel max_bytes : ℕ) (exclude : List Text) (s : CacheState)
    → ((t : CacheState)
        → Unique t.entries
        → length t.entries ≤ fuel
        → Trimmed max_bytes exclude t (evict_loop fuel max_bytes exclude t))
    → Unique s.entries
    → length s.entries ≤ suc fuel
    → leb (total_size_bytes s.entries) max_bytes ≡ false
    → (es : Table) → Front (not_in exclude) es s.entries
    → eviction_candidates exclude 25 s.entries ≡ es
    → Trimmed max_bytes exclude s
        (if is_empty es then s else evict_loop fuel max_bytes exclude (evict_batch max_bytes es s))
after_candidates fuel max_bytes exclude s loop u n over [] f none_left =
    (stop, inr (no_candidates exclude 24 s.entries none_left))
after_candidates fuel max_bytes exclude s loop u n over (e ∷ es) f some_left =
    let w = batch-Evicts max_bytes exclude (e ∷ es) s f in
    let shorter = batch_shrinks max_bytes exclude e es s u f over in
    let rest = loop (evict_batch max_bytes (e ∷ es) s) (Evicts-Unique w u).0 (omega arith) in
    (join w rest.0, rest.1)

pub evict_loop-Trimmed :
    (fuel max_bytes : ℕ) (exclude : List Text) (s : CacheState)
    → Unique s.entries
    → length s.entries ≤ fuel
    → Trimmed max_bytes exclude s (evict_loop fuel max_bytes exclude s)
unfolding evict_loop
evict_loop-Trimmed zero max_bytes exclude s u n = (stop, inl (no_rows max_bytes s.entries n))
evict_loop-Trimmed (suc fuel) max_bytes exclude s u n =
    elim (Bool-cases (leb (total_size_bytes s.entries) max_bytes)) [
      | inl fits ↦ rw fits (stop, inl (ground arith))
      | inr over ↦
          let loop = evict_loop-Trimmed fuel max_bytes exclude in
          let f = eviction_candidates-Front exclude 25 s.entries u in
          rw over (after_candidates fuel max_bytes exclude s loop u n over _ f refl)
    ]

-- With a cap that is not 0 and one row for each content id, `evict_if_needed` succeeds, and is a
-- sequence of steps that each evict the least recently used row that is not excluded, while the
-- cache is over its cap. It ends only when the cache is within its cap, or all rows are excluded.
pub evict_if_needed-Trimmed :
    (env : Env) (exclude : List Text) (s : CacheState)
    → Unique s.entries
    → 0 < env.config.max_bytes
    → ((evict_if_needed env exclude s).0 ≡ ok tt)
      × Trimmed env.config.max_bytes exclude s (evict_if_needed env exclude s).1
unfolding evict_if_needed
evict_if_needed-Trimmed env exclude s u capped =
    elim (Bool-cases (leb (total_size_bytes s.entries) env.config.max_bytes)) [
      | inl fits ↦ rw fits (refl, (stop, inl (ground arith)))
      | inr over ↦
          let positive : leb env.config.max_bytes 0 ≡ false = ground arith in
          rw (over, positive)
            (
              refl,
              evict_loop-Trimmed (length s.entries) env.config.max_bytes exclude s u (omega arith),
            )
    ]
