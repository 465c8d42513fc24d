-- ===== src/Maya.antt =====
-- maya/canonicalize.py: what changes from save to save is taken out of a Maya ASCII scene, line by
-- line. What Python's `re` finds with the patterns of the file is the parameter `Patterns`, with the
-- groups of a match; so are UTF-8 and the formatting of floats.
pub mod Lines
pub mod Semantic
pub mod Anchors
pub mod Lost
use zeno_plugin.Prelude.{
  ℕ, ◌+◌, Bool, true, false, not, ◌&&◌, ◌||◌, Option, none, some, List, [], ◌∷◌, ◌++◌, any,
  if◌then◌else◌, length, is_empty, drop, ltb, ◌==◌,
}
use zeno_plugin.Prelude.Text.{Text, codes, text_eq, strip, lstrip, starts_with, contains}
use zeno_plugin.Prelude.Result.{Result, ok, err, ◌>>=◌}
use zeno_plugin.Prelude.Int.{ℤ, negsuc, pos}
use zeno_plugin.Chunking.{Bytes}
use zeno_plugin.Canonical.{is_on}

pub record Patterns : Type 0 where
  -- `(?<!\\)(?:\\\\)*";\s*$` is found
  pub closes : Text → Bool
  pub last_modified : Text → Bool
  -- groups 1 and 3
  pub uuid_rename : Text → Option (Text × Text)
  pub workspace_fr : Text → Bool
  pub script_node_create : Text → Bool
  pub set_attr_string_begin : Text → Option (Text × (Text × Text))
  -- `prefix`, `dtype` and `rest`
  pub plugin_payload_begin : Text → Option (Text × (Text × Text))
  -- group 1 of these three
  pub created_by_maya : Text → Option Text
  pub ascii_header : Text → Option Text
  pub requires_maya : Text → Option Text
  -- groups 1 and 2
  pub fileinfo : Text → Option (Text × Text)
  pub numeric_type : Text → Bool
  pub ktv : Text → Bool
  -- `_FLOAT_TOKEN.sub(f, part)`, where `f` is given group 1 of a match, which is all of it
  pub sub_floats : (Text → Text) → Text → Text
  -- `f"{float(token):.{decimals}f}"`, and `none` where `float` raises
  pub formatted : Text → ℕ → Option Text
  -- `int(s)`, and `none` where it raises
  pub int_of : Text → Option ℤ

-- The environment's variables; `none` where one is not set.
pub record Settings : Type 0 where
  pub float_quantize : Option Text
  pub float_decimals : Option Text
  pub plugin_normalize : Option Text

-- UTF-8; `none` where the bytes are no text.
pub record Utf8 : Type 0 where
  -- `decode("utf-8-sig")`
  pub decode_sig : Bytes → Option Text
  -- `decode("utf-8", errors="replace")`
  pub decode_replace : Bytes → Text
  pub encode : Text → Bytes

pub data MayaError : Type 0 where
  unicode_decode_error value_error : MayaError

abbrev pub canonical : Text
canonical = codes "chimera.canonical"

abbrev pub quote : Text
quote = 34 ∷ []

abbrev pub quoted : Text → Text
quoted s = quote ++ s ++ quote

unfoldable pub volatile_keys : List Text
volatile_keys =
    codes "application"
    ∷ codes "product"
    ∷ codes "version"
    ∷ codes "cutIdentifier"
    ∷ codes "os"
    ∷ codes "license"
    ∷ codes "apiVersion"
    ∷ codes "osv"
    ∷ codes "vcsInfo"
    ∷ codes "creationDate"
    ∷ codes "modifiedDate"
    ∷ codes "lastModified"
    ∷ []

unfoldable pub plugin_types : List Text
plugin_types = codes "ngst2SkinLayerDataStorage" ∷ codes "dataPolyComponent" ∷ []

-- `s.split(sep)` at one code
unfoldable pub split : ℕ → Text → List Text
split sep [] = [] ∷ []
split sep (c ∷ s) =
    let rest = split sep s in
    if c == sep
    then [] ∷ rest
    else elim rest [ [] ↦ (c ∷ []) ∷ [] | line ∷ lines ↦ (c ∷ line) ∷ lines ]

-- `sep.join(lines)`
unfoldable pub join : ℕ → List Text → Text
join sep [] = []
join sep (line ∷ []) = line
join sep (line ∷ (next ∷ lines)) = line ++ (sep ∷ join sep (next ∷ lines))

-- `s.split(needle)[0]`
unfoldable pub before_first : Text → Text → Text
before_first needle [] = []
before_first needle (c ∷ s) = if starts_with (c ∷ s) needle then [] else c ∷ before_first needle s

-- `.replace("\r\n", "\n").replace("\r", "\n")`
unfoldable pub normalize_newlines : Text → Text
normalize_newlines [] = []
normalize_newlines (c ∷ []) = (if c == 13 then 10 else c) ∷ []
normalize_newlines (c ∷ (d ∷ s)) =
    let pair = normalize_newlines (d ∷ s) in
    if c == 13 && (d == 10) then pair else (if c == 13 then 10 else c) ∷ pair

-- The variables of the loop.
pub record LineState : Type 0 where
  pub in_volatile_script_node : Bool
  pub in_multiline_string : Bool
  pub string_indent : Text
  pub string_attr : Text
  pub in_multiline_plugin_payload : Bool
  pub plugin_prefix : Text
  pub out : List Text

abbrev pub fresh : LineState
fresh = record {
  in_volatile_script_node = false;
  in_multiline_string = false;
  string_indent = [];
  string_attr = [];
  in_multiline_plugin_payload = false;
  plugin_prefix = [];
  out = [];
}

abbrev pub emit : Text → LineState → LineState
emit line s = record s { out = s.out ++ line ∷ [] }

abbrev pub string_placeholder : Text → Text → Text
string_placeholder indent attr =
    indent
    ++ (codes "setAttr "
        ++ (quoted attr
            ++ (codes " -type "
                ++ (quoted (codes "string") ++ (32 ∷ quoted canonical ++ codes ";")))))

abbrev pub payload_placeholder : Text → Text
payload_placeholder prefix = prefix ++ (quoted canonical ++ codes ";")

unfoldable pub normalize_fileinfo_line : Option (Text × Text) → Option Text
normalize_fileinfo_line none = none
normalize_fileinfo_line (some (indent, key)) =
    if any (text_eq key) volatile_keys
    then some
        (indent ++ (codes "fileInfo " ++ (quoted key ++ (32 ∷ quoted canonical ++ codes ";"))))
    else none

abbrev pub or_default : Text → Option Text → Text
or_default d none = d
or_default d (some v) = v

module _ (re : Patterns) where
  unfoldable pub repl : ℕ → Text → Text
  repl decimals token = elim (re.formatted token decimals) [ some t ↦ t | none ↦ token ]

  -- the parts outside quotes
  unfoldable pub quantize_parts : ℕ → Bool → List Text → List Text
  quantize_parts places outside [] = []
  quantize_parts places outside (part ∷ parts) =
      (if outside then re.sub_floats (repl places) part else part)
      ∷ quantize_parts places (not outside) parts

  unfoldable pub quantize_float_tokens : ℤ → Text → Text
  quantize_float_tokens (pos places) line = join 34 (quantize_parts places true (split 34 line))
  quantize_float_tokens (negsuc n) line = line

  -- step 6, the standard normalization of one line
  unfoldable pub normal_line : Bool → ℤ → Text → Text
  normal_line quantize places line = elim (re.created_by_maya line) [
    | some indent ↦ indent ++ codes "// Created by Maya"
    | none ↦ elim (re.ascii_header line) [
      | some indent ↦ indent ++ codes "//Maya ASCII scene"
      | none ↦ elim (re.requires_maya line) [
        | some indent ↦ indent ++ (codes "requires maya " ++ (quoted canonical ++ codes ";"))
        | none ↦ elim (normalize_fileinfo_line (re.fileinfo line)) [
          | some fi ↦ fi
          | none ↦
              if quantize
                && (re.numeric_type line || re.ktv line)
                && not (contains line (codes "-type " ++ quoted (codes "string")))
              then quantize_float_tokens places line
              else line
        ]
      ]
    ]
  ]

  -- a payload of a plugin, unless that is switched off
  unfoldable pub plugin_line :
      Bool → Bool → ℤ → Text → Option (Text × (Text × Text)) → LineState → LineState
  plugin_line neutralize quantize places line none s = emit (normal_line quantize places line) s
  plugin_line neutralize quantize places line (some (prefix, (dtype, rest))) s =
      if neutralize && any (text_eq dtype) plugin_types
      then (if re.closes rest
          then emit (payload_placeholder prefix) (record s { plugin_prefix = prefix })
          else record s { plugin_prefix = prefix; in_multiline_plugin_payload = true })
      else emit (normal_line quantize places line) s

  -- a text of a volatile script node
  unfoldable pub string_line : Text → (Text × (Text × Text)) → LineState → LineState
  string_line line (head, (attr, rest)) s =
      let indent = before_first (codes "setAttr") head in
      let t = record s { string_indent = indent; string_attr = attr } in
      if re.closes rest
      then emit (string_placeholder indent attr) t
      else record t { in_multiline_string = true }

  abbrev pub leaves_node : Text → Bool
  leaves_node line =
      starts_with (lstrip line) (codes "createNode ") || starts_with (lstrip line) (codes "select ")

  -- from the reset of the script node on
  unfoldable pub body_line : Bool → Bool → ℤ → Text → LineState → LineState
  body_line neutralize quantize places line s =
      let inside = s.in_volatile_script_node && not (leaves_node line) in
      let t = record s { in_volatile_script_node = inside } in
      elim (if inside then re.set_attr_string_begin line else none) [
        | some groups ↦ string_line line groups t
        | none ↦ plugin_line neutralize quantize places line (re.plugin_payload_begin line) t
      ]

  -- one round of the loop
  unfoldable pub step : Bool → Bool → ℤ → LineState → Text → LineState
  step neutralize quantize places s line =
      if s.in_multiline_plugin_payload
      then (if re.closes line
          then emit (payload_placeholder s.plugin_prefix)
              (record s { in_multiline_plugin_payload = false })
          else s)
      else if s.in_multiline_string
      then (if re.closes line
          then emit (string_placeholder s.string_indent s.string_attr)
              (record s { in_multiline_string = false })
          else s)
      else if re.last_modified line
      then s
      else elim (re.uuid_rename line) [
        | some (head, tail) ↦
            emit (head ++ (quoted (codes "00000000-0000-0000-0000-000000000000") ++ tail)) s
        | none ↦
            if re.workspace_fr line
            then s
            else if re.script_node_create line
            then emit line (record s { in_volatile_script_node = true })
            else body_line neutralize quantize places line s
      ]

  unfoldable pub scan_lines : Bool → Bool → ℤ → LineState → List Text → LineState
  scan_lines neutralize quantize places s [] = s
  scan_lines neutralize quantize places s (line ∷ lines) =
      scan_lines neutralize quantize places (step neutralize quantize places s line) lines

  unfoldable pub quantize_places : Settings → Option ℤ
  quantize_places env =
      let v = strip (or_default (codes "5") env.float_decimals) in
      re.int_of (if is_empty v then codes "5" else v)

  unfoldable pub canonical_text : Settings → ℤ → Text → Text
  canonical_text env places text =
      join 10
        (scan_lines (is_on (or_default (codes "1") env.plugin_normalize))
          (is_on (or_default (codes "0") env.float_quantize)) places fresh
          (split 10 (normalize_newlines text))).out

  unfoldable pub canonicalize : Utf8 → Settings → Bytes → Result MayaError Bytes
  canonicalize utf8 env raw_data = elim (utf8.decode_sig raw_data) [
    | none ↦ err unicode_decode_error
    | some text ↦ elim (quantize_places env) [
      | none ↦ err value_error
      | some places ↦ ok (utf8.encode (canonical_text env places text))
    ]
  ]
