-- ===== src/Cache/Soundness.antt =====
-- What each method of the cache keeps, and what it promises of the path that it returns, whatever
-- the client answers and whichever step fails.
use mathlib.Core.Path.{subst}
use zeno_plugin.Prelude.{
  ℕ, ◌≡◌, refl, sym, ap, ◌∙◌, inl, inr, true, false, Option, none, some, List, [], ◌∷◌, arith, leb,
  length, Bool-cases,
}
use zeno_plugin.Prelude.Text.{Text, text_eq_iff}
use zeno_plugin.Prelude.Result.{ok}
use zeno_plugin.Prelude.Int.{ℤ}
use zeno_plugin.Prelude.Action.{pure, Outcome, Triple, Triple-bind}
use zeno_plugin.Chunking.{Bytes}
use zeno_plugin.Index.{FilePath, CacheEntry, Table, total_size_bytes, not_in}
use zeno_plugin.Index.Rows.{All, Unique, upsert_entry-Unique, All-upsert}
use zeno_plugin.Cache.Disk.{CacheState, Failure, Method, path_eq, path_eq_iff, blob_path}
use zeno_plugin.Cache.{Env, evict_if_needed, touch_index, finish, hit, hit_or, is_valid_hit}
use zeno_plugin.Cache.Eviction.{Evicts, stop, evict_loop-Trimmed, Evicts-Unique}
use zeno_plugin.Cache.Eviction.Kept.{Evicts_no_new_file, Evicts-All, Evicts_keeps_file}
use zeno_plugin.Cache.Claims.{Located, Sound, Holds}

-- The path names a file of some content id, and the file is there.
abbrev pub Present : FilePath → CacheState → Type 0
Present p s = (c : Text) × (n : Text) × (b : Bytes) × (p ≡ blob_path c n) × (s.files p ≡ some b)

All-map :
    (P Q : CacheEntry → Type 0) (t : Table) → ((e : CacheEntry) → P e → Q e) → All P t → All Q t
All-map P Q [] f a = tt
All-map P Q (e ∷ t) f (p, a) = (f e p, All-map P Q t f a)

-- A row of another content id has another path.
not_mine :
    (cid fname : Text) (e : CacheEntry)
    → Located e
    → not_in (cid ∷ []) e ≡ true
    → path_eq e.rel_path (blob_path cid fname) ≡ false
not_mine cid fname e l other = elim (Bool-cases (path_eq e.rel_path (blob_path cid fname))) [
  | inr apart ↦ apart
  | inl clash ↦
      let at : e.rel_path ≡ blob_path cid fname =
        (path_eq_iff e.rel_path (blob_path cid fname)).0 clash in
      let paths : blob_path e.content_id e.filename ≡ blob_path cid fname = sym l ∙ at in
      let same : e.content_id ≡ cid = cc in
      absurd (ground (arith, other, (text_eq_iff e.content_id cid).1 same))
]

-- A file of a content id that is excluded is kept.
pub Evicts_keeps_own :
    {max_bytes : ℕ} {s s' : CacheState} (cid fname : Text)
    → Evicts max_bytes (cid ∷ []) s s'
    → All Located s.entries
    → s'.files (blob_path cid fname) ≡ s.files (blob_path cid fname)
Evicts_keeps_own {s} cid fname w l =
    Evicts_keeps_file (blob_path cid fname) w (All-map Located _ s.entries (not_mine cid fname) l)

pub Evicts-Sound :
    {max_bytes : ℕ} {s s' : CacheState} (hash : Bytes → Text) (cid fname : Text) (b : Bytes)
    → Evicts max_bytes (cid ∷ []) s s'
    → Sound hash s × Holds (blob_path cid fname) b s
    → Sound hash s' × Holds (blob_path cid fname) b s'
Evicts-Sound {s} hash cid fname b w ((honest, u, l), there) = (
  (
    (λ p c h e claim. honest p c h (Evicts_no_new_file w p c e) claim),
    (Evicts-Unique w u).0,
    Evicts-All Located w l,
  ),
  Evicts_keeps_own cid fname w l ∙ there,
)

module _ (env : Env) where
  pub touch_index-Located :
      (cid fname : Text) (p : FilePath) (s : CacheState)
      → Unique s.entries
      → All Located s.entries
      → Unique (touch_index env cid fname (blob_path cid fname) p s).1.entries
        × All Located (touch_index env cid fname (blob_path cid fname) p s).1.entries
  unfolding touch_index
  touch_index-Located cid fname p s u l = (
    upsert_entry-Unique cid fname (blob_path cid fname) _ s.clock s.entries u,
    All-upsert Located cid fname (blob_path cid fname) _ s.clock s.entries refl
        (λ e same. ap (λ c. blob_path c fname) (sym same)) l,
  )

  pub touch_index-Sound :
      (cid fname : Text) (p : FilePath) (b : Bytes)
      → Triple
          (λ s. Sound env.hash s × Holds p b s)
          (Sound env.hash)
          (λ _. Holds p b)
          (touch_index env cid fname (blob_path cid fname) p)
  unfolding touch_index
  touch_index-Sound cid fname p b = record {
    run = λ s ((honest, u, l), there).
        let rows = touch_index-Located cid fname p s u l in ((honest, rows.0, rows.1), there);
  }

  pub evict_if_needed-Evicts :
      (exclude : List Text) (s : CacheState)
      → Unique s.entries
      → ((evict_if_needed env exclude s).0 ≡ ok tt)
        × Evicts env.config.max_bytes exclude s (evict_if_needed env exclude s).1
  unfolding evict_if_needed
  evict_if_needed-Evicts exclude s u =
      elim (Bool-cases (leb (total_size_bytes s.entries) env.config.max_bytes)) [
        | inl fits ↦ rw fits (refl, stop)
        | inr over ↦ elim (Bool-cases (leb env.config.max_bytes 0)) [
          | inl unset ↦ rw (over, unset) (refl, stop)
          | inr capped ↦
              rw (over, capped)
                (
                  refl,
                  (evict_loop-Trimmed (length s.entries) env.config.max_bytes exclude s u
                      (omega arith)).0,
                )
        ]
      ]

  evict_if_needed-Sound :
      (cid fname : Text) (b : Bytes)
      → Triple
          (λ s. Sound env.hash s × Holds (blob_path cid fname) b s)
          (Sound env.hash)
          (λ _. Holds (blob_path cid fname) b)
          (evict_if_needed env (cid ∷ []))
  evict_if_needed-Sound cid fname b = record {
    run = λ s held.
        let done = evict_if_needed-Evicts (cid ∷ []) s held.0.1 in
        subst
          (λ r.
            Outcome (Sound env.hash) (λ _. Holds (blob_path cid fname) b) r
              (evict_if_needed env (cid ∷ []) s).1)
          (sym done.0) (Evicts-Sound env.hash cid fname b done.1 held);
  }

  answer :
      (cid fname : Text) (b : Bytes)
      → Triple
          (λ s. Sound env.hash s × Holds (blob_path cid fname) b s)
          (Sound env.hash)
          Present
          (pure {E = Failure} {S = CacheState} (blob_path cid fname))
  answer cid fname b = record { run = λ s (sound, there). (sound, (cid, fname, b, refl, there)) }

  pub finish-Sound :
      (cid fname : Text) (b : Bytes)
      → Triple
          (λ s. Sound env.hash s × Holds (blob_path cid fname) b s)
          (Sound env.hash)
          Present
          (finish env cid fname)
  unfolding finish
  finish-Sound cid fname b =
      Triple-bind (touch_index-Sound cid fname (blob_path cid fname) b)
        λ _. Triple-bind (evict_if_needed-Sound cid fname b) λ _. answer cid fname b

  hit-Sound :
      (cid fname : Text) (b : Bytes)
      → Triple
          (λ s. Sound env.hash s × Holds (blob_path cid fname) b s)
          (Sound env.hash)
          Present
          (hit env cid fname)
  unfolding hit
  hit-Sound cid fname b =
      Triple-bind (touch_index-Sound cid fname (blob_path cid fname) b) λ _. answer cid fname b

  valid_hit_there :
      (p : FilePath) (size : Option ℤ) (s : CacheState)
      → is_valid_hit env p size s ≡ true
      → (b : Bytes) × Holds p b s
  unfolding is_valid_hit
  valid_hit_there p size s valid = there (s.files p) refl
    where
      there : (o : Option Bytes) → s.files p ≡ o → (b : Bytes) × (s.files p ≡ some b)
      there none e = absurd (ground (arith, e, valid))
      there (some b) e = (b, e)

  pub hit_or-Sound :
      (cid fname : Text) (size : Option ℤ) (miss : Method FilePath)
      → Triple (Sound env.hash) (Sound env.hash) Present miss
      → Triple (Sound env.hash) (Sound env.hash) Present (hit_or env cid fname size miss)
  unfolding hit_or
  hit_or-Sound cid fname size miss t = record {
    run = λ s sound. elim (Bool-cases (is_valid_hit env (blob_path cid fname) size s)) [
      | inl valid ↦
          let (b, there) = valid_hit_there (blob_path cid fname) size s valid in
          rw valid ((hit-Sound cid fname b).run s (sound, there))
      | inr stale ↦ rw stale (t.run s sound)
    ];
  }
