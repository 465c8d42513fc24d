-- ===== src/Cache/Disk.antt =====
-- The files below the cache root, and the rows of the index: what the methods of `LocalCache` act
-- on. A path is the list of its components, none of which holds a separator; directories are
-- implied by the files in them. Operations on a file that is there do not fail.
use zeno_plugin.Prelude.{
  ℕ, Bool, true, Option, none, some, [], ◌∷◌, ◌++◌, take, drop, if◌then◌else◌, list_eq, list_eq_iff,
  ◌↔◌, ◌≡◌,
}
use zeno_plugin.Prelude.Text.{Text, codes, text_eq, text_eq_iff}
use zeno_plugin.Prelude.Result.{ok, err}
use zeno_plugin.Prelude.Action.{Action}
use zeno_plugin.Chunking.{Bytes}
use zeno_plugin.Index.{FilePath, Table}

abbrev pub Files : Type 0
Files = FilePath → Option Bytes

pub record CacheState : Type 0 where
  pub files : Files
  pub entries : Table
  pub clock : ℕ

-- The reasons of `CacheCorruptError`.
pub data Corruption : Type 0 where
  missing_fields size_mismatch hash_mismatch manifest_parse_failed missing_whole : Corruption
  chunk_size_mismatch chunk_hash_mismatch zstd_required unsupported_segment : Corruption
  assembled_size_mismatch assembled_hash_mismatch : Corruption

pub data Failure : Type 0 where
  corrupt : Corruption → (content_id : Text) → Failure
  lock_timeout : Failure
  no_such_file : FilePath → Failure
  -- raised by the client, or by zstandard
  external : Text → Failure

abbrev pub Method : Type 0 → Type 0
Method A = Action Failure CacheState A

unfoldable pub path_eq : FilePath → FilePath → Bool
path_eq = list_eq text_eq

pub path_eq_iff : (p q : FilePath) → (path_eq p q ≡ true) ↔ (p ≡ q)
unfolding path_eq
path_eq_iff = list_eq_iff text_eq text_eq_iff

unfoldable pub write_file : FilePath → Bytes → Method (Unit {0})
write_file p b s = (ok tt, record s { files = λ q. if path_eq p q then some b else s.files q })

-- `unlink` where the file exists
unfoldable pub remove_file : FilePath → Method (Unit {0})
remove_file p s = (ok tt, record s { files = λ q. if path_eq p q then none else s.files q })

unfoldable pub read_file : FilePath → Method Bytes
read_file p s = elim (s.files p) [ none ↦ (err (no_such_file p), s) | some b ↦ (ok b, s) ]

-- `w.write(b)` on a file that is open for writing
unfoldable pub append_file : FilePath → Bytes → Method (Unit {0})
unfolding write_file
append_file p b s = elim (s.files p) [ none ↦ write_file p b s | some a ↦ write_file p (a ++ b) s ]

-- `source.replace(target)`
unfoldable pub replace_file : FilePath → FilePath → Method (Unit {0})
unfolding write_file remove_file
replace_file source target s = elim (s.files source) [
  | none ↦ (err (no_such_file source), s)
  | some b ↦ write_file target b (remove_file source s).1
]

abbrev pub tmp_suffix : Text
tmp_suffix = codes ".tmp"

-- <root>/<content_id>/<filename>, and the names that downloads and assemblies go to first
abbrev pub blob_path : Text → Text → FilePath
blob_path cid fname = cid ∷ fname ∷ []

abbrev pub download_path : Text → Text → FilePath
download_path cid fname = cid ∷ (fname ++ codes ".download.tmp") ∷ []

abbrev pub assemble_path : Text → Text → FilePath
assemble_path cid fname = cid ∷ (fname ++ codes ".assemble.tmp") ∷ []

-- <root>/chunks/<h[:2]>/<h[2:4]>/<h>
abbrev pub chunk_path : Text → FilePath
chunk_path h = codes "chunks" ∷ take 2 h ∷ take 2 (drop 2 h) ∷ h ∷ []

-- `with_suffix(".tmp")`; a digest has no dot
abbrev pub chunk_tmp_path : Text → FilePath
chunk_tmp_path h = codes "chunks" ∷ take 2 h ∷ take 2 (drop 2 h) ∷ (h ++ tmp_suffix) ∷ []

abbrev pub manifest_path : Text → FilePath
manifest_path mid = codes "manifests" ∷ (mid ++ codes ".json") ∷ []

abbrev pub manifest_tmp_path : Text → FilePath
manifest_tmp_path mid = codes "manifests" ∷ (mid ++ tmp_suffix) ∷ []
