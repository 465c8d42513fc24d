-- ===== src/Registry.antt =====
-- zeno_client/dcc_registry.py: which canonicalizer a file goes to. That of Blender is Canonical.antt;
-- those of maya/canonicalize.py and usd/canonicalize.py are parameters here.
use zeno_plugin.Prelude.{◌||◌, Option, none, some, if◌then◌else◌, any, [], ◌∷◌}
use zeno_plugin.Prelude.Text.{Text, codes, text_eq, lower}
use zeno_plugin.Prelude.Result.{Result, ok, ◌>>=◌}
use zeno_plugin.Chunking.{Bytes}
use zeno_plugin.Canonical.{CanonicalError, Unpack, canonicalize}

-- the answer of a canonicalizer, as bytes that are there
abbrev some_bytes : Result CanonicalError Bytes → Result CanonicalError (Option Bytes)
some_bytes r = do content ← r; ok (some content)

module _ (zstd : Option Unpack) (gunzip maya usd : Unpack) (zero_old_ptr : Text) where
  -- `none` is a file that has no canonical form. A missing hint is empty.
  unfoldable pub canonicalize_file : Text → Text → Bytes → Result CanonicalError (Option Bytes)
  canonicalize_file suffix dcc_hint content =
      let ext = lower suffix in
      let hint = lower dcc_hint in
      if text_eq ext (codes ".blend") || text_eq hint (codes "blender")
      then some_bytes (canonicalize zstd gunzip zero_old_ptr content)
      else if text_eq ext (codes ".ma")
      then some_bytes (maya content)
      else if any (text_eq ext) (codes ".usd" ∷ codes ".usda" ∷ codes ".usdc" ∷ codes ".usdz" ∷ [])
          || text_eq hint (codes "usd")
      then some_bytes (usd content)
      else ok none
