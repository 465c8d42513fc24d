-- ===== src/Omni/Patch/Payloads.antt =====
-- A patch unpacks to the bytes that it was made for.
use zeno_plugin.Prelude.{
  ◌*◌, ◌≡◌, refl, max, Option, none, some, inl, inr, Bool-cases, ◌||◌, is_empty, length,
}
use zeno_plugin.Prelude.Text.{Text}
use zeno_plugin.Prelude.Result.{Result, ok, err, ◌>>=◌}
use zeno_plugin.Chunking.{Bytes}
use zeno_plugin.Omni.Patch.{Zstd, high_entropy_patch, zstd_training_samples, dict_size, patch_with}

-- The dictionary and the patch give `x`.
abbrev pub Unpacks : Option Zstd → Bytes → Bytes → Bytes → Type 0
Unpacks none dict patch x = ⊥
Unpacks (some z) dict patch x = z.decompress dict patch (max 1 (length x)) ≡ ok x

-- What zstandard promises: with the dictionary that it was compressed with, a patch is unpacked.
abbrev pub Inverts : Option Zstd → Type 0
Inverts none = Unit
Inverts (some z) =
    (dict new patch : Bytes) → z.compress dict new ≡ ok patch → Unpacks (some z) dict patch new

-- A payload, where there is one, unpacks to the bytes that it was made for.
abbrev pub Payload : Option Zstd → Bytes → Option (Bytes × Bytes) → Type 0
Payload zstd new none = Unit
Payload zstd new (some (dict, patch)) = Unpacks zstd dict patch new

abbrev pub Payloads : Option Zstd → Bytes → Result Text (Option (Bytes × Bytes)) → Type 0
Payloads zstd new (ok p) = Payload zstd new p
Payloads zstd new (err e) = Unit

module _ (z : Zstd) (laws : Inverts (some z)) (new : Bytes) where
  compress-Payloads :
      (dict : Bytes) (r : Result Text Bytes)
      → z.compress dict new ≡ r
      → Payloads (some z) new (r >>= λ patch. ok (some (dict, patch)))
  compress-Payloads dict (ok patch) e = laws dict new patch e
  compress-Payloads dict (err x) e = tt

  patch_with-Payloads : (dict : Option Bytes) → Payloads (some z) new (patch_with z new dict)
  patch_with-Payloads none = tt
  patch_with-Payloads (some dict) = compress-Payloads dict (z.compress dict new) refl

pub high_entropy_patch-Payloads :
    (zstd : Option Zstd) (new : Bytes) (parent : Option Bytes)
    → Inverts zstd
    → Payloads zstd new (high_entropy_patch zstd new parent)
unfolding high_entropy_patch
high_entropy_patch-Payloads none new parent laws = tt
high_entropy_patch-Payloads (some z) new none laws = tt
high_entropy_patch-Payloads (some z) new (some parent) laws =
    let samples = zstd_training_samples (256 * 1024) parent in
    elim (Bool-cases (is_empty parent || is_empty new || is_empty samples)) [
      | inl e ↦ rw e tt
      | inr e ↦
          rw e (patch_with-Payloads z laws new (z.train_dictionary (dict_size parent) samples))
    ]
