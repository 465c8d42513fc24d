-- ===== src/Usd.antt =====
-- usd/canonicalize.py: layers of USD pass as they are, and an archive is packed again with its entries
-- in the order of their names. zipfile is the parameter `ZipFile`.
pub mod Order
use zeno_plugin.Prelude.{
  ℕ, zero, suc, Bool, true, false, ◌||◌, ◌&&◌, leb, take, Option, none, some, List, [], ◌∷◌,
  if◌then◌else◌, is_empty, ltb, ◌==◌,
}
use zeno_plugin.Prelude.Text.{Text, codes, starts_with, ends_with, lower}
use zeno_plugin.Prelude.Result.{Result, ok, err, ◌>>=◌}
use zeno_plugin.Chunking.{Bytes}
use zeno_plugin.Canonical.{is_on}

-- `none` is `BadZipFile`.
pub record ZipFile : Type 0 where
  -- the file names of `infolist()`
  pub infolist : Bytes → Option (List Text)
  pub read : Bytes → Text → Option Bytes
  -- an archive of stored entries in this order, all of 1980-01-01, made on Unix, without attributes
  pub written : List (Text × Bytes) → Bytes

pub data UsdError : Type 0 where
  value_error recursion_error : UsdError

pub data UsdFormat : Type 0 where
  usda usdc usdz unknown : UsdFormat

abbrev pub zip_magic : Bytes
zip_magic = 80 ∷ 75 ∷ 3 ∷ 4 ∷ []

-- `lstrip` of bytes: the white space is that of ASCII.
unfoldable pub lstrip_bytes : Bytes → Bytes
lstrip_bytes [] = []
lstrip_bytes (b ∷ bs) =
    let rest = lstrip_bytes bs in if b == 32 || (leb 9 b && leb b 13) then rest else b ∷ bs

unfoldable pub detect_usd_format : Bytes → UsdFormat
detect_usd_format raw_data =
    let head = take 64 raw_data in
    if starts_with (take 64 (lstrip_bytes raw_data)) (codes "#usda")
    then usda
    else if starts_with head (codes "PXR-USDC")
    then usdc
    else if starts_with head zip_magic
    then usdz
    else unknown

abbrev pub is_usd_like_name : Text → Bool
is_usd_like_name name =
    ends_with (lower name) (codes ".usd")
    || ends_with (lower name) (codes ".usda")
    || ends_with (lower name) (codes ".usdc")

-- `<=` of two texts
unfoldable pub text_le : Text → Text → Bool
text_le [] t = true
text_le (c ∷ s) [] = false
text_le (c ∷ s) (d ∷ t) =
    let rest = text_le s t in if ltb c d then true else if c == d then rest else false

unfoldable pub insert_name : Text → List Text → List Text
insert_name name [] = name ∷ []
insert_name name (n ∷ names) =
    let rest = insert_name name names in if text_le name n then name ∷ n ∷ names else n ∷ rest

-- the names that are not empty, sorted
unfoldable pub sorted_names : List Text → List Text
sorted_names [] = []
sorted_names (name ∷ names) =
    let rest = sorted_names names in if is_empty name then rest else insert_name name rest

module _ (zip : ZipFile) where
  unfoldable pub entry_payload :
      (Bytes → Result UsdError Bytes) → Bytes → Text → Result UsdError Bytes
  entry_payload canon raw_data name =
      if ends_with name (codes "/") then ok [] else elim (zip.read raw_data name) [
        | none ↦ err value_error
        | some payload ↦ if is_usd_like_name name then canon payload else ok payload
      ]

  unfoldable pub repack_entries :
      (Bytes → Result UsdError Bytes) → Bytes → List Text → Result UsdError (List (Text × Bytes))
  repack_entries canon raw_data [] = ok []
  repack_entries canon raw_data (name ∷ names) = do
    payload ← entry_payload canon raw_data name
    rest ← repack_entries canon raw_data names
    ok ((name, payload) ∷ rest)

  unfoldable pub repack_usdz_deterministic :
      (Bytes → Result UsdError Bytes) → Bytes → Result UsdError Bytes
  repack_usdz_deterministic canon raw_data = elim (zip.infolist raw_data) [
    | none ↦ err value_error
    | some names ↦ do
      entries ← repack_entries canon raw_data (sorted_names names)
      ok (zip.written entries)
  ]

module _ (zip : ZipFile) (usdz_repack : Text) where
  -- on fuel, how deep Python lets archives inside archives go
  unfoldable pub canonicalize : ℕ → Bytes → Result UsdError Bytes
  canonicalize zero raw_data = err recursion_error
  canonicalize (suc depth) raw_data =
      let packed = repack_usdz_deterministic zip (canonicalize depth) raw_data in
      elim (detect_usd_format raw_data) [
        | usdz ↦ if is_on usdz_repack then packed else ok raw_data
        | _ ↦ ok raw_data
      ]
