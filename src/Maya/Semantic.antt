-- ===== src/Maya/Semantic.antt =====
-- maya/canonicalize.py, `extract_semantic_anchors`: the byte offsets of the lines that hold geometry,
-- curves and payloads.
use zeno_plugin.Prelude.{
  ℕ, Bool, ◌+◌, ◌&&◌, ◌||◌, List, [], ◌∷◌, ◌++◌, any, if◌then◌else◌, length, ltb, ◌==◌,
}
use zeno_plugin.Prelude.Text.{Text, codes, lstrip, starts_with, contains}
use zeno_plugin.Chunking.{Bytes}
use zeno_plugin.Maya.{Utf8, quoted, plugin_types, split}

abbrev type_is : Text → Text → Bool
type_is t line = contains line (codes "-type " ++ quoted t)

-- a line before which a chunk may end
unfoldable pub marks : Text → Bool
marks line =
    starts_with (lstrip line) (codes "createNode animCurve")
    || type_is (codes "pointArray") line
    || type_is (codes "polyFaces") line
    || type_is (codes "nurbsCurve") line
    || type_is (codes "nurbsSurface") line
    || (contains line (codes ".ktv[") && starts_with (lstrip line) (codes "setAttr "))
    || any (λ t. type_is t line) plugin_types

-- the loop over the lines, with the offset of the next one
unfoldable pub anchors_from : (Text → Bytes) → ℕ → List Text → List ℕ
anchors_from encode cursor [] = []
anchors_from encode cursor (line ∷ lines) =
    let rest = anchors_from encode (cursor + length (encode line) + 1) lines in
    if marks line then cursor ∷ rest else rest

unfoldable pub insert_unique : ℕ → List ℕ → List ℕ
insert_unique a [] = a ∷ []
insert_unique a (b ∷ bs) =
    let rest = insert_unique a bs in
    if ltb a b then a ∷ b ∷ bs else if a == b then b ∷ bs else b ∷ rest

-- `sorted` of a set
unfoldable pub sorted_unique : List ℕ → List ℕ
sorted_unique [] = []
sorted_unique (a ∷ offsets) = insert_unique a (sorted_unique offsets)

unfoldable pub extract_semantic_anchors : Utf8 → Bytes → List ℕ
extract_semantic_anchors utf8 canonical_data =
    sorted_unique (anchors_from utf8.encode 0 (split 10 (utf8.decode_replace canonical_data)))
