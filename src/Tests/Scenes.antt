-- ===== src/Tests/Scenes.antt =====
-- Scenes of ASCII, with patterns that know one payload of a plugin.
use zeno_plugin.Prelude.{◌≡◌, ◌↔◌, refl, inl, false, none, some, [], ◌∷◌, if◌then◌else◌}
use zeno_plugin.Prelude.Text.{
  Text, codes, text_eq, starts_with, ends_with, strip, lstrip, lower, contains,
}
use zeno_plugin.Prelude.Int.{pos}
use zeno_plugin.Prelude.Result.{ok}
use zeno_plugin.Maya.{
  Patterns, Settings, Utf8, split, join, normalize_newlines, canonicalize, quantize_places,
  scan_lines, step, body_line, plugin_line, normal_line, normalize_fileinfo_line, plugin_types,
}
use zeno_plugin.Maya.Semantic.{
  extract_semantic_anchors, marks, sorted_unique, anchors_from, insert_unique,
}
use zeno_plugin.Maya.Lines.{AllPlain, canonicalize-Plain}
use zeno_plugin.Maya.Lost.{NoneCloses, canonicalize-lost}
use zeno_plugin.Maya.Anchors.{Increasing, Occurs, Starts, extract_semantic_anchors-Starts}

abbrev ascii : Utf8
ascii = record { decode_sig = some; decode_replace = λ b. b; encode = λ t. t }

abbrev patterns : Patterns
patterns = record {
  closes = λ line. ends_with line (codes ";");
  last_modified = λ line. false;
  uuid_rename = λ line. none;
  workspace_fr = λ line. false;
  script_node_create = λ line. false;
  set_attr_string_begin = λ line. none;
  plugin_payload_begin = λ line.
      if starts_with line (codes "P")
      then some (codes "P", (codes "dataPolyComponent", []))
      else none;
  created_by_maya = λ line. none;
  ascii_header = λ line. none;
  requires_maya = λ line. none;
  fileinfo = λ line. none;
  numeric_type = λ line. false;
  ktv = λ line. false;
  sub_floats = λ f part. part;
  formatted = λ token places. none;
  int_of = λ t. some (pos 5);
}

abbrev unset : Settings
unset = record { float_quantize = none; float_decimals = none; plugin_normalize = none }

-- a, a carriage return, b
abbrev plain_scene : Text
plain_scene = 97 ∷ 13 ∷ 98 ∷ []

canonicalize-Plain_example :
    (canonicalize patterns ascii unset plain_scene ≡ ok (normalize_newlines plain_scene))
    × (canonicalize patterns ascii unset (normalize_newlines plain_scene)
        ≡ ok (normalize_newlines plain_scene))
unfolding quantize_places AllPlain split normalize_newlines starts_with
canonicalize-Plain_example =
    canonicalize-Plain patterns ascii unset plain_scene plain_scene (pos 5) refl refl
      (
        record {
          comment = refl;
          uuid = refl;
          workspace = refl;
          script = refl;
          payload = refl;
          created = refl;
          header = refl;
          requires = refl;
          info = refl;
          numeric = refl;
          curve = refl;
        },
        (
          record {
            comment = refl;
            uuid = refl;
            workspace = refl;
            script = refl;
            payload = refl;
            created = refl;
            header = refl;
            requires = refl;
            info = refl;
            numeric = refl;
            curve = refl;
          },
          tt,
        ),
      )
      refl

-- a, a payload that is not closed, b
abbrev cut_scene : Text
cut_scene = 97 ∷ 10 ∷ 80 ∷ 10 ∷ 98 ∷ []

abbrev shorter_scene : Text
shorter_scene = 97 ∷ 10 ∷ 80 ∷ []

canonicalize-lost_example :
    (canonicalize patterns ascii unset cut_scene ≡ ok (97 ∷ []))
    × (canonicalize patterns ascii unset shorter_scene
        ≡ canonicalize patterns ascii unset cut_scene)
unfolding quantize_places split join normalize_newlines starts_with scan_lines step body_line
    plugin_line normal_line normalize_fileinfo_line NoneCloses ends_with plugin_types text_eq strip
    lstrip lower
canonicalize-lost_example =
    canonicalize-lost patterns ascii unset (pos 5) ((97 ∷ []) ∷ (80 ∷ []) ∷ []) ((98 ∷ []) ∷ []) []
      cut_scene shorter_scene cut_scene shorter_scene refl refl refl refl refl (inl refl) (refl, tt)
      tt

-- a, then a line that sets keys of a curve
abbrev curve_scene : Text
curve_scene = 97 ∷ 10 ∷ codes "setAttr .ktv["

extract_semantic_anchors-Starts_example :
    Increasing 0 (extract_semantic_anchors ascii curve_scene)
    × (Occurs 2 (extract_semantic_anchors ascii curve_scene)
        ↔ Starts (λ t. t) 0 (split 10 curve_scene) 2)
extract_semantic_anchors-Starts_example =
    extract_semantic_anchors-Starts ascii (record { append = λ s t. refl; newline = refl })
      curve_scene 2 refl

anchor : extract_semantic_anchors ascii curve_scene ≡ 2 ∷ []
unfolding extract_semantic_anchors sorted_unique anchors_from split marks starts_with lstrip
    contains plugin_types insert_unique
anchor = refl
