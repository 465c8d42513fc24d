-- ===== src/Manifest/Value.antt =====
-- JSON values as `json.loads` returns them, and what the parsers of zeno_client/manifest.py ask of
-- a value: its truth, `d.get(key)`, `str(v)`, `int(v)`.
use zeno_plugin.Prelude.{
  ℕ, List, Bool, true, false, not, Option, none, some, ◌==◌, is_empty, if◌then◌else◌,
}
use zeno_plugin.Prelude.Text.{Text, text_eq}
use zeno_plugin.Prelude.Int.{ℤ, pos, negsuc}

-- What a parser sees of a float: whether it is 0.0, and `int(f)`, which raises
-- for an infinity and for NaN.
pub record Float : Type 0 where
  pub nonzero : Bool
  pub truncated : Option ℤ
  pub literal : Text

mutual
  pub data Json : Type 0 where
    null : Json
    bool : Bool → Json
    int : ℤ → Json
    float : Float → Json
    str : Text → Json
    arr : Items → Json
    obj : Fields → Json

  pub data Items : Type 0 where
    nil : Items
    item : Json → Items → Items

  pub data Fields : Type 0 where
    end : Fields
    field : Text → Json → Fields → Fields

abbrev pub is_nonzero : ℤ → Bool
is_nonzero (pos n) = not (n == 0)
is_nonzero (negsuc n) = true

abbrev pub truthy : Json → Bool
truthy null = false
truthy (bool b) = b
truthy (int i) = is_nonzero i
truthy (float f) = f.nonzero
truthy (str s) = not (is_empty s)
truthy (arr nil) = false
truthy (arr (item x xs)) = true
truthy (obj end) = false
truthy (obj (field k v fs)) = true

-- `v or default`
abbrev pub or_default : Json → Json → Json
or_default v d = if truthy v then v else d

-- `d.get(key)`; a missing key gives `None`
unfoldable pub get : Text → Fields → Json
get key end = null
get key (field k v fs) = if text_eq k key then v else get key fs

-- Python's own conversions, and its JSON codec: the standard library's, not modelled further.
-- `loads` also stands for the decoding of the bytes, and is `none` where either raises.
pub record Python : Type 0 where
  pub loads : List ℕ → Option Json
  pub dumps : Json → List ℕ
  pub render : Json → Text
  pub int_of_text : Text → Option ℤ

module _ (py : Python) where
  -- `str(v)`
  abbrev pub text_of : Json → Text
  text_of (str s) = s
  text_of v = py.render v

  -- `int(v)`; `none` where it raises
  abbrev pub int_of : Json → Option ℤ
  int_of (int i) = some i
  int_of (float f) = f.truncated
  int_of (bool true) = some (pos 1)
  int_of (bool false) = some (pos 0)
  int_of (str s) = py.int_of_text s
  int_of _ = none
