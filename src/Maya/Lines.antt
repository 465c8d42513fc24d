-- ===== src/Maya/Lines.antt =====
-- What `canonicalize` keeps: the lines that no pattern finds.
use mathlib.Core.Path.{subst}
use mathlib.Core.List.{append-nil, append_assoc}
use zeno_plugin.Prelude.{
  ℕ, ◌≡◌, ◌≢◌, refl, sym, ap, ◌∙◌, Bool, true, false, none, some, List, [], ◌∷◌, ◌++◌,
  if◌then◌else◌, ◌==◌, ◌&&◌, arith, Bool-cases, inl, inr,
}
use zeno_plugin.Prelude.Text.{Text}
use zeno_plugin.Prelude.Int.{ℤ}
use zeno_plugin.Prelude.Result.{ok}
use zeno_plugin.Chunking.{Bytes}
use zeno_plugin.Maya.{
  Patterns, Settings, Utf8, LineState, fresh, split, join, normalize_newlines,
  normalize_fileinfo_line, normal_line, plugin_line, body_line, step, scan_lines, canonical_text,
  canonicalize, quantize_places,
}

-- a line that no pattern finds
pub record Plain (re : Patterns) (line : Text) : Type 0 where
  pub comment : re.last_modified line ≡ false
  pub uuid : re.uuid_rename line ≡ none
  pub workspace : re.workspace_fr line ≡ false
  pub script : re.script_node_create line ≡ false
  pub payload : re.plugin_payload_begin line ≡ none
  pub created : re.created_by_maya line ≡ none
  pub header : re.ascii_header line ≡ none
  pub requires : re.requires_maya line ≡ none
  pub info : re.fileinfo line ≡ none
  pub numeric : re.numeric_type line ≡ false
  pub curve : re.ktv line ≡ false

unfoldable pub AllPlain : Patterns → List Text → Type 0
AllPlain re [] = Unit
AllPlain re (line ∷ lines) = Plain re line × AllPlain re lines

abbrev idle : List Text → LineState
idle out = record fresh { out = out }

abbrev put : ℕ → List Text → List Text
put c [] = (c ∷ []) ∷ []
put c (line ∷ lines) = (c ∷ line) ∷ lines

join-put : (sep c : ℕ) (rest : List Text) → join sep (put c rest) ≡ c ∷ join sep rest
unfolding join
join-put sep c [] = refl
join-put sep c (line ∷ []) = refl
join-put sep c (line ∷ (next ∷ lines)) = refl

join-newline : (sep : ℕ) (rest : List Text) → rest ≢ [] → join sep ([] ∷ rest) ≡ sep ∷ join sep rest
unfolding join
join-newline sep [] some_line = absurd (some_line refl)
join-newline sep (line ∷ lines) some_line = refl

cut-Nonempty : (b : Bool) (c : ℕ) (rest : List Text) → (if b then [] ∷ rest else put c rest) ≢ []
cut-Nonempty true c rest e = absurd (cc)
cut-Nonempty false c [] e = absurd (cc)
cut-Nonempty false c (line ∷ lines) e = absurd (cc)

split-Nonempty : (sep : ℕ) (s : Text) → split sep s ≢ []
unfolding split
split-Nonempty sep [] e = absurd (cc)
split-Nonempty sep (c ∷ s) e = cut-Nonempty (c == sep) c (split sep s) e

-- Splitting at a code and joining with it gives the text back.
pub join-split : (sep : ℕ) (s : Text) → join sep (split sep s) ≡ s
unfolding split join
join-split sep [] = refl
join-split sep (c ∷ s) = elim (Bool-cases (c == sep)) [
  | inl newline ↦ rw newline (
      join-newline sep (split sep s) (split-Nonempty sep s)
      ∙ ap (λ t. sep ∷ t) (join-split sep s)
      ∙ ap (λ d. d ∷ s) (ground arith))
  | inr other ↦ rw other (join-put sep c (split sep s) ∙ ap (λ t. c ∷ t) (join-split sep s))
]

normal_line-Plain :
    (re : Patterns) (quantize : Bool) (places : ℤ) (line : Text)
    → Plain re line
    → normal_line re quantize places line ≡ line
unfolding normal_line normalize_fileinfo_line
normal_line-Plain re true places line p =
    rw
      (
        p.created, p.header, p.requires, p.info, p.numeric, p.curve, normal_line,
        normalize_fileinfo_line,
      )
      refl
normal_line-Plain re false places line p =
    rw (p.created, p.header, p.requires, p.info, normal_line, normalize_fileinfo_line) refl

step-Plain :
    (re : Patterns) (neutralize quantize : Bool) (places : ℤ) (out : List Text) (line : Text)
    → Plain re line
    → step re neutralize quantize places (idle out) line ≡ idle (out ++ line ∷ [])
unfolding step body_line plugin_line
step-Plain re neutralize quantize places out line p =
    rw (p.comment, p.uuid, p.workspace, p.script, p.payload)
      (ap (λ l. idle (out ++ l ∷ [])) (normal_line-Plain re quantize places line p))

scan_lines-Plain :
    (re : Patterns) (neutralize quantize : Bool) (places : ℤ) (out lines : List Text)
    → AllPlain re lines
    → scan_lines re neutralize quantize places (idle out) lines ≡ idle (out ++ lines)
unfolding scan_lines AllPlain
scan_lines-Plain re neutralize quantize places out [] p = ap idle (sym (append-nil out))
scan_lines-Plain re neutralize quantize places out (line ∷ lines) (p, ps) =
    rw (step-Plain re neutralize quantize places out line p) (
      scan_lines-Plain re neutralize quantize places (out ++ line ∷ []) lines ps
      ∙ ap idle (append_assoc out (line ∷ []) lines))

pub canonical_text-Plain :
    (re : Patterns) (env : Settings) (places : ℤ) (text : Text)
    → AllPlain re (split 10 (normalize_newlines text))
    → canonical_text re env places text ≡ normalize_newlines text
unfolding canonical_text
canonical_text-Plain re env places text p =
    ap (λ (s : LineState). join 10 s.out)
      (scan_lines-Plain re _ _ places [] (split 10 (normalize_newlines text)) p)
    ∙ join-split 10 (normalize_newlines text)

-- no carriage return
unfoldable NoReturns : Text → Type 0
NoReturns [] = Unit
NoReturns (c ∷ s) = (c ≢ 13) × NoReturns s

nothing-NoReturns : NoReturns []
unfolding NoReturns
nothing-NoReturns = tt

newline-NoReturns : (c : ℕ) (s : Text) → NoReturns s → NoReturns ((if c == 13 then 10 else c) ∷ s)
unfolding NoReturns
newline-NoReturns c s n = (ground arith, n)

normalize_newlines-NoReturns : (s : Text) → NoReturns (normalize_newlines s)
unfolding normalize_newlines
normalize_newlines-NoReturns [] = nothing-NoReturns
normalize_newlines-NoReturns (c ∷ []) = newline-NoReturns c [] nothing-NoReturns
normalize_newlines-NoReturns (c ∷ (d ∷ s)) = elim (Bool-cases (c == 13 && (d == 10))) [
  | inl pair ↦ rw pair (normalize_newlines-NoReturns (d ∷ s))
  | inr other ↦
      rw other
        (newline-NoReturns c (normalize_newlines (d ∷ s)) (normalize_newlines-NoReturns (d ∷ s)))
]

normalize_newlines_same : (s : Text) → NoReturns s → normalize_newlines s ≡ s
unfolding normalize_newlines NoReturns
normalize_newlines_same [] n = refl
normalize_newlines_same (c ∷ []) (n, ns) = ground arith
normalize_newlines_same (c ∷ (d ∷ s)) (n, ns) =
    let same = normalize_newlines_same (d ∷ s) ns in
    let other : c == 13 ≡ false = ground arith in rw other (ap (λ t. c ∷ t) same)

pub canonicalize_decoded :
    (re : Patterns) (utf8 : Utf8) (env : Settings) (raw_data : Bytes) (text : Text) (places : ℤ)
    → utf8.decode_sig raw_data ≡ some text
    → quantize_places re env ≡ some places
    → canonicalize re utf8 env raw_data ≡ ok (utf8.encode (canonical_text re env places text))
unfolding canonicalize
canonicalize_decoded re utf8 env raw_data text places decoded number =
    rw (decoded, number, canonicalize) refl

-- A scene none of whose lines a pattern finds becomes its text with the newlines of Unix, in UTF-8,
-- whatever the settings are, where the number of decimals is a number; and what comes out comes out
-- of `canonicalize` unchanged, where UTF-8 decodes what it has encoded of that text.
pub canonicalize-Plain :
    (re : Patterns) (utf8 : Utf8) (env : Settings) (raw_data : Bytes) (text : Text) (places : ℤ)
    → utf8.decode_sig raw_data ≡ some text
    → quantize_places re env ≡ some places
    → AllPlain re (split 10 (normalize_newlines text))
    → utf8.decode_sig (utf8.encode (normalize_newlines text)) ≡ some (normalize_newlines text)
    → (canonicalize re utf8 env raw_data ≡ ok (utf8.encode (normalize_newlines text)))
      × (canonicalize re utf8 env (utf8.encode (normalize_newlines text))
          ≡ ok (utf8.encode (normalize_newlines text)))
canonicalize-Plain re utf8 env raw_data text places decoded number p back =
    let same =
      normalize_newlines_same (normalize_newlines text) (normalize_newlines-NoReturns text) in
    (
      canonicalize_decoded re utf8 env raw_data text places decoded number
          ∙ ap (λ t. ok (utf8.encode t)) (canonical_text-Plain re env places text p),
      canonicalize_decoded re utf8 env _ (normalize_newlines text) places back number
          ∙ ap (λ t. ok (utf8.encode t))
              (canonical_text-Plain re env places (normalize_newlines text)
                  (subst (λ t. AllPlain re (split 10 t)) (sym same) p)
                ∙ same),
    )
