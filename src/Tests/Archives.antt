-- ===== src/Tests/Archives.antt =====
-- Archives of two layers, which stand in them in either order.
use mathlib.Core.List.Permᴰ
use zeno_plugin.Prelude.{◌≡◌, refl, some, List, [], ◌∷◌, ◌++◌, if◌then◌else◌}
use zeno_plugin.Prelude.Text.{Text, codes, text_eq, starts_with, ends_with, lower, strip}
use zeno_plugin.Prelude.Result.{ok}
use zeno_plugin.Chunking.{Bytes}
use zeno_plugin.Usd.{
  ZipFile, zip_magic, detect_usd_format, canonicalize, lstrip_bytes, repack_usdz_deterministic,
  repack_entries, entry_payload, sorted_names, insert_name, text_le,
}
use zeno_plugin.Usd.Order.{canonicalize-Perm}

abbrev archive : Bytes
archive = zip_magic ++ 1 ∷ []

abbrev other_archive : Bytes
other_archive = zip_magic ++ 2 ∷ []

abbrev first_name : Text
first_name = codes "a.usd"

abbrev second_name : Text
second_name = codes "b.png"

abbrev names_of : Bytes → List Text
names_of raw_data =
    if text_eq raw_data archive
    then first_name ∷ second_name ∷ []
    else second_name ∷ first_name ∷ []

abbrev all_entries : List (Text × Bytes) → Bytes
all_entries [] = []
all_entries ((name, payload) ∷ entries) = name ++ payload ++ all_entries entries

abbrev zip : ZipFile
zip = record {
  infolist = λ raw_data. some (names_of raw_data);
  read = λ raw_data name. some (7 ∷ []);
  written = all_entries;
}

packed :
    canonicalize zip (codes "1") 2 other_archive
    ≡ ok (first_name ++ (7 ∷ []) ++ (second_name ++ (7 ∷ []) ++ []))
unfolding canonicalize detect_usd_format starts_with lstrip_bytes text_eq lower strip
    repack_usdz_deterministic repack_entries sorted_names insert_name text_le entry_payload
    ends_with
packed = refl

canonicalize-Perm_example :
    canonicalize zip (codes "1") 2 archive ≡ canonicalize zip (codes "1") 2 other_archive
unfolding detect_usd_format starts_with lstrip_bytes text_eq strip lower
canonicalize-Perm_example =
    canonicalize-Perm zip (codes "1") 2 archive other_archive (first_name ∷ second_name ∷ [])
      (second_name ∷ first_name ∷ []) refl refl refl refl refl (Permᴰ.swap refl refl) (λ name. refl)
