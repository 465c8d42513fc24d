-- ===== src/Cache/Claims.antt =====
-- Which files of the cache stand under a content hash, and when they have that hash.
use mathlib.Core.Path.{subst}
use mathlib.Core.List.{reverse, reverse-append, append_assoc}
use zeno_plugin.Prelude.{
  ◌≡◌, refl, sym, ap, ◌∙◌, inl, inr, Bool, true, false, ◌||◌, Option, none, some, [], ◌∷◌, ◌++◌,
  arith, if◌then◌else◌, Bool-cases,
}
use zeno_plugin.Prelude.Text.{Text, codes, text_eq, text_eq_iff, ends_with, starts_with}
use zeno_plugin.Prelude.Result.{Result, err}
use zeno_plugin.Prelude.Action.{Outcome, Triple}
use zeno_plugin.Chunking.{Bytes}
use zeno_plugin.Index.{FilePath, CacheEntry}
use zeno_plugin.Index.Rows.{All, Unique}
use zeno_plugin.Cache.Disk.{
  Files, CacheState, Failure, no_such_file, append_file, write_file, remove_file, replace_file,
  path_eq, path_eq_iff, tmp_suffix, blob_path, download_path, assemble_path, chunk_path,
  chunk_tmp_path,
}

-- no file of a content id: the lock, or a file that is not finished
abbrev pub is_unfinished : Text → Bool
is_unfinished n = text_eq n (codes ".lock") || ends_with n tmp_suffix

-- The hash that the file at a path stands under, if any.
abbrev pub claimed : FilePath → Option Text
claimed (c ∷ n ∷ []) = if text_eq c (codes "manifests") || is_unfinished n then none else some c
claimed (top ∷ a ∷ b ∷ h ∷ []) = if is_unfinished h then none else some h
claimed _ = none

-- Every file that stands under a hash has it.
abbrev pub Honest : (Bytes → Text) → Files → Type 0
Honest hash files =
    (p : FilePath) (b : Bytes) (h : Text) → files p ≡ some b → claimed p ≡ some h → hash b ≡ h

abbrev pub Located : CacheEntry → Type 0
Located e = e.rel_path ≡ blob_path e.content_id e.filename

-- What the cache keeps: honest files, and one row for each content id, that names its own file.
abbrev pub Sound : (Bytes → Text) → CacheState → Type 0
Sound hash s = Honest hash s.files × Unique s.entries × All Located s.entries

abbrev pub Holds : FilePath → Bytes → CacheState → Type 0
Holds p b s = s.files p ≡ some b

module _ (hash : Bytes → Text) (files : Files) where
  Honest-write :
      (p : FilePath) (b : Bytes)
      → Honest hash files
      → ((h : Text) → claimed p ≡ some h → hash b ≡ h)
      → Honest hash (λ q. if path_eq p q then some b else files q)
  Honest-write p b honest fit q c h there claim = elim (Bool-cases (path_eq p q)) [
    | inl same ↦
        let eq : p ≡ q = (path_eq_iff p q).0 same in
        let content : some b ≡ some c = rw same at there in
        let same_bytes : b ≡ c = cc in ap hash (sym same_bytes) ∙ fit h (rw (sym eq) at claim)
    | inr other ↦ honest q c h (rw other at there) claim
  ]

  Honest-remove :
      (p : FilePath) → Honest hash files → Honest hash (λ q. if path_eq p q then none else files q)
  Honest-remove p honest q c h there claim = elim (Bool-cases (path_eq p q)) [
    | inl same ↦ absurd (ground (arith, same, there))
    | inr other ↦ honest q c h (rw other at there) claim
  ]

pub path_eq_refl : (p : FilePath) → path_eq p p ≡ true
path_eq_refl p = (path_eq_iff p p).1 refl

module _ (hash : Bytes → Text) where
  pub write_file-Sound :
      (p : FilePath) (b : Bytes)
      → ((h : Text) → claimed p ≡ some h → hash b ≡ h)
      → Triple (Sound hash) (Sound hash) (λ _. Holds p b) (write_file p b)
  unfolding write_file
  write_file-Sound p b fit = record {
    run = λ s (honest, u, l).
        ((Honest-write hash s.files p b honest fit, u, l), rw (path_eq_refl p) refl);
  }

  pub remove_file-Sound :
      (p : FilePath) → Triple (Sound hash) (Sound hash) (λ _ _. Unit {0}) (remove_file p)
  unfolding remove_file
  remove_file-Sound p = record {
    run = λ s (honest, u, l). ((Honest-remove hash s.files p honest, u, l), tt);
  }

  -- A file goes under a hash that it has.
  pub replace_file-Sound :
      (source target : FilePath) (b : Bytes)
      → ((h : Text) → claimed target ≡ some h → hash b ≡ h)
      → Triple
          (λ s. Sound hash s × Holds source b s)
          (Sound hash)
          (λ _. Holds target b)
          (replace_file source target)
  unfolding replace_file write_file remove_file
  replace_file-Sound source target b fit = record {
    run = λ s ((honest, u, l), there).
        subst
          (λ o.
            Outcome (Sound hash) (λ _. Holds target b)
              (elim o as (λ _. Result Failure (Unit {0}) × CacheState) [
                | none ↦ (err (no_such_file source), s)
                | some b ↦ write_file target b (remove_file source s).1
              ]).0
              (elim o as (λ _. Result Failure (Unit {0}) × CacheState) [
                | none ↦ (err (no_such_file source), s)
                | some b ↦ write_file target b (remove_file source s).1
              ]).1)
          (sym there)
          (
            (
              Honest-write hash (λ q. if path_eq source q then none else s.files q) target b
                  (Honest-remove hash s.files source honest) fit,
              u,
              l,
            ),
            rw (path_eq_refl target) refl,
          );
  }

  -- where nothing stands under a hash
  pub append_file-Sound :
      (p : FilePath) (b : Bytes)
      → claimed p ≡ none
      → Triple (Sound hash) (Sound hash) (λ _ _. Unit {0}) (append_file p b)
  unfolding append_file write_file
  append_file-Sound p b no_claim = record { run = λ s (honest, u, l). go s honest u l (s.files p) }
    where
      go :
          (s : CacheState)
          → Honest hash s.files
          → Unique s.entries
          → All Located s.entries
          → (o : Option Bytes)
          → Outcome
              (Sound hash)
              (λ _ _. Unit {0})
              (elim o as (λ _. Result Failure (Unit {0}) × CacheState) [
                | none ↦ write_file p b s
                | some a ↦ write_file p (a ++ b) s
              ]).0
              (elim o as (λ _. Result Failure (Unit {0}) × CacheState) [
                | none ↦ write_file p b s
                | some a ↦ write_file p (a ++ b) s
              ]).1
      go s honest u l none = ((Honest-write hash s.files p b honest (λ h e. absurd (cc)), u, l), tt)
      go s honest u l (some a) =
          ((Honest-write hash s.files p (a ++ b) honest (λ h e. absurd (cc)), u, l), tt)

starts_with-append : (a b : Text) → starts_with (a ++ b) a ≡ true
unfolding starts_with
starts_with-append [] b = ground arith
starts_with-append (c ∷ a) b = ground (arith, starts_with-append a b)

tmp_name : (n : Text) → is_unfinished (n ++ tmp_suffix) ≡ true
unfolding ends_with
tmp_name n = ground (arith, ends)
  where
    ends : ends_with (n ++ tmp_suffix) tmp_suffix ≡ true
    ends =
        subst (λ r. starts_with r (reverse tmp_suffix) ≡ true) (sym (reverse-append n tmp_suffix))
          (starts_with-append (reverse tmp_suffix) (reverse n))

claim_if : (b : Bool) (c h : Text) → (if b then none else some c) ≡ some h → c ≡ h
claim_if true c h e = absurd cc
claim_if false c h e = cc

unclaimed : (c n : Text) → is_unfinished n ≡ true → claimed (blob_path c n) ≡ none
unclaimed c n h = ground (arith, h)

pub download_path_unclaimed : (c n : Text) → claimed (download_path c n) ≡ none
download_path_unclaimed c n =
    subst (λ m. claimed (blob_path c m) ≡ none) (append_assoc n (codes ".download") tmp_suffix)
      (unclaimed c _ (tmp_name (n ++ codes ".download")))

pub assemble_path_unclaimed : (c n : Text) → claimed (assemble_path c n) ≡ none
assemble_path_unclaimed c n =
    subst (λ m. claimed (blob_path c m) ≡ none) (append_assoc n (codes ".assemble") tmp_suffix)
      (unclaimed c _ (tmp_name (n ++ codes ".assemble")))

pub chunk_tmp_path_unclaimed : (h : Text) → claimed (chunk_tmp_path h) ≡ none
chunk_tmp_path_unclaimed h = rw (tmp_name h) refl

pub manifest_path_unclaimed : (n : Text) → claimed (codes "manifests" ∷ n ∷ []) ≡ none
manifest_path_unclaimed n =
    ground (arith, (text_eq_iff (codes "manifests") (codes "manifests")).1 refl)

-- a finished file claims its content id
pub blob_path_claim : (c n h : Text) → claimed (blob_path c n) ≡ some h → c ≡ h
blob_path_claim c n h e = claim_if _ c h e

pub chunk_path_claim : (h k : Text) → claimed (chunk_path h) ≡ some k → h ≡ k
chunk_path_claim h k e = claim_if _ h k e
