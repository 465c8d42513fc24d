-- ===== src/Maya/Lost.antt =====
-- What `canonicalize` drops: the lines behind a volatile text that no later line closes.
use mathlib.Core.List.{◌++◌}
use zeno_plugin.Prelude.{
  ◌≡◌, refl, ap, ◌∙◌, sym, Bool, true, false, ◌⊎◌, inl, inr, Bool-cases, some, List, [], ◌∷◌,
}
use zeno_plugin.Prelude.Text.{Text}
use zeno_plugin.Prelude.Int.{ℤ}
use zeno_plugin.Prelude.Result.{ok}
use zeno_plugin.Chunking.{Bytes}
use zeno_plugin.Canonical.{is_on}
use zeno_plugin.Maya.{
  Patterns, Settings, Utf8, LineState, fresh, join, split, normalize_newlines, step, scan_lines,
  canonical_text, canonicalize, or_default, quantize_places,
}
use zeno_plugin.Maya.Lines.{canonicalize_decoded}

unfoldable pub NoneCloses : Patterns → List Text → Type 0
NoneCloses re [] = Unit
NoneCloses re (line ∷ lines) = (re.closes line ≡ false) × NoneCloses re lines

-- inside of a text whose end is awaited
abbrev pub Waiting : LineState → Type 0
Waiting s = (s.in_multiline_plugin_payload ≡ true) ⊎ (s.in_multiline_string ≡ true)

step-Waiting :
    (re : Patterns) (neutralize quantize : Bool) (places : ℤ) (s : LineState) (line : Text)
    → Waiting s
    → re.closes line ≡ false
    → step re neutralize quantize places s line ≡ s
unfolding step
step-Waiting re neutralize quantize places s line (inl payload) open_ = rw (payload, open_) refl
step-Waiting re neutralize quantize places s line (inr string) open_ =
    elim (Bool-cases s.in_multiline_plugin_payload) [
      | inl payload ↦ rw (payload, open_) refl
      | inr other ↦ rw (other, string, open_) refl
    ]

scan_lines-Waiting :
    (re : Patterns) (neutralize quantize : Bool) (places : ℤ) (s : LineState) (lines : List Text)
    → Waiting s
    → NoneCloses re lines
    → scan_lines re neutralize quantize places s lines ≡ s
unfolding scan_lines NoneCloses
scan_lines-Waiting re neutralize quantize places s [] w n = refl
scan_lines-Waiting re neutralize quantize places s (line ∷ lines) w (n, ns) =
    rw (step-Waiting re neutralize quantize places s line w n)
      (scan_lines-Waiting re neutralize quantize places s lines w ns)

scan_lines-append :
    (re : Patterns) (neutralize quantize : Bool) (places : ℤ) (s : LineState)
    (before after : List Text)
    → scan_lines re neutralize quantize places s (before ++ after)
      ≡ scan_lines re neutralize quantize places
          (scan_lines re neutralize quantize places s before)
          after
unfolding scan_lines
scan_lines-append re neutralize quantize places s [] after = refl
scan_lines-append re neutralize quantize places s (line ∷ before) after =
    scan_lines-append re neutralize quantize places (step re neutralize quantize places s line)
      before after

-- what is known behind the lines, under the settings
abbrev pub scanned : Patterns → Settings → ℤ → List Text → LineState
scanned re env places =
    scan_lines re (is_on (or_default (49 ∷ []) env.plugin_normalize))
      (is_on (or_default (48 ∷ []) env.float_quantize)) places fresh

canonical_text-Waiting :
    (re : Patterns) (env : Settings) (places : ℤ) (text : Text) (before after : List Text)
    → split 10 (normalize_newlines text) ≡ before ++ after
    → Waiting (scanned re env places before)
    → NoneCloses re after
    → canonical_text re env places text ≡ join 10 (scanned re env places before).out
unfolding canonical_text
canonical_text-Waiting re env places text before after e w n =
    ap (λ ls. join 10 (scanned re env places ls).out) e
    ∙ ap (λ (s : LineState). join 10 s.out)
        (scan_lines-append re _ _ places fresh before after
          ∙ scan_lines-Waiting re _ _ places (scanned re env places before) after w n)

-- A volatile text that no later line closes takes these lines with it, without an error: two scenes
-- with the same lines up to it, and any lines behind it that do not close it, have the same
-- canonical bytes, those of the lines that stand before it.
pub canonicalize-lost :
    (re : Patterns) (utf8 : Utf8) (env : Settings) (places : ℤ) (before after other : List Text)
    (raw_data raw_other : Bytes) (text text_other : Text)
    → quantize_places re env ≡ some places
    → utf8.decode_sig raw_data ≡ some text
    → utf8.decode_sig raw_other ≡ some text_other
    → split 10 (normalize_newlines text) ≡ before ++ after
    → split 10 (normalize_newlines text_other) ≡ before ++ other
    → Waiting (scanned re env places before)
    → NoneCloses re after
    → NoneCloses re other
    → (canonicalize re utf8 env raw_data
        ≡ ok (utf8.encode (join 10 (scanned re env places before).out)))
      × (canonicalize re utf8 env raw_other ≡ canonicalize re utf8 env raw_data)
canonicalize-lost re utf8 env places before after other raw_data raw_other text text_other number
      decoded decoded_other lines lines_other w n n_other =
    let kept =
      canonicalize_decoded re utf8 env raw_data text places decoded number
      ∙ ap (λ t. ok (utf8.encode t))
          (canonical_text-Waiting re env places text before after lines w n) in
    let kept_other =
      canonicalize_decoded re utf8 env raw_other text_other places decoded_other number
      ∙ ap (λ t. ok (utf8.encode t))
          (canonical_text-Waiting re env places text_other before other lines_other w n_other) in
    (kept, kept_other ∙ sym kept)
