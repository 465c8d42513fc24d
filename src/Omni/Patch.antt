-- ===== src/Omni/Patch.antt =====
-- zeno_client/omni_ingest.py: the patch of a stretch of high entropy, which is the stretch
-- compressed with a dictionary trained on the same stretch of the parent version. zstandard is the
-- parameter `Zstd`; a dictionary is given by its bytes.
pub mod Samples
pub mod Payloads
use zeno_plugin.Prelude.{
  ℕ, zero, suc, ◌*◌, ◌/◌, min, max, Bool, true, false, ◌||◌, Option, none, some, List, [], ◌∷◌,
  if◌then◌else◌, length, take, drop, is_empty, ltb,
}
use zeno_plugin.Prelude.Text.{Text}
use zeno_plugin.Prelude.Result.{Result, ok, err, ◌>>=◌}
use zeno_plugin.Chunking.{Bytes}

-- `train_dictionary` is `none` where it raises.
pub record Zstd : Type 0 where
  pub train_dictionary : ℕ → List Bytes → Option Bytes
  pub compress : Bytes → Bytes → Result Text Bytes
  pub decompress : Bytes → Bytes → ℕ → Result Text Bytes

-- `[b[i : i + step] for i in range(0, n, step)]`
unfoldable pub pieces : ℕ → ℕ → Bytes → List Bytes
pieces zero step rest = []
pieces (suc fuel) step [] = []
pieces (suc fuel) step (b ∷ rest) = take step (b ∷ rest) ∷ pieces fuel step (drop step (b ∷ rest))

unfoldable pub sample_step : ℕ → ℕ → ℕ
sample_step max_chunk n = max 1 (min max_chunk (n / max 8 (min 256 (n / 4096))))

abbrev pub halves : Bytes → List Bytes
halves parent =
    let mid = length parent / 2 in
    if ltb mid 1 then parent ∷ parent ∷ [] else take mid parent ∷ drop mid parent ∷ []

unfoldable pub zstd_training_samples : ℕ → Bytes → List Bytes
zstd_training_samples max_chunk parent =
    let samples = pieces (length parent) (sample_step max_chunk (length parent)) parent in
    if ltb (length parent) 2 then [] else if ltb (length samples) 2 then halves parent else samples

abbrev pub dict_size : Bytes → ℕ
dict_size parent = min 131072 (max 1024 (length parent))

abbrev pub patch_with : Zstd → Bytes → Option Bytes → Result Text (Option (Bytes × Bytes))
patch_with zstd new none = ok none
patch_with zstd new (some dict) = do patch ← zstd.compress dict new; ok (some (dict, patch))

-- The dictionary and the patch; `none` where the stretch is cut into chunks instead.
unfoldable pub high_entropy_patch :
    Option Zstd → Bytes → Option Bytes → Result Text (Option (Bytes × Bytes))
high_entropy_patch none new parent = ok none
high_entropy_patch (some zstd) new none = ok none
high_entropy_patch (some zstd) new (some parent) =
    let samples = zstd_training_samples (256 * 1024) parent in
    if is_empty parent || is_empty new || is_empty samples
    then ok none
    else patch_with zstd new (zstd.train_dictionary (dict_size parent) samples)
