-- ===== src/Maya/Anchors.antt =====
-- The offsets at which a chunk of a scene may end: where they stand, and their order.
use mathlib.Core.Path.{subst}
use zeno_plugin.Prelude.{
  ℕ, ◌+◌, ◌≤◌, ◌≡◌, refl, sym, ap, ◌∙◌, ◌↔◌, true, ◌⊎◌, inl, inr, Bool-cases, List, [], ◌∷◌, ◌++◌,
  length, ltb, arith, length-append,
}
use zeno_plugin.Prelude.Text.{Text}
use zeno_plugin.Chunking.{Bytes}
use zeno_plugin.Maya.{Utf8, split}
use zeno_plugin.Maya.Semantic.{
  marks, anchors_from, insert_unique, sorted_unique, extract_semantic_anchors,
}

-- strictly increasing, from `low` on
unfoldable pub Increasing : ℕ → List ℕ → Type 0
Increasing low [] = Unit
Increasing low (a ∷ offsets) = (low ≤ a) × Increasing (a + 1) offsets

Increasing-weaken :
    (low low' : ℕ) (offsets : List ℕ)
    → low' ≤ low
    → Increasing low offsets
    → Increasing low' offsets
unfolding Increasing
Increasing-weaken low low' [] h i = tt
Increasing-weaken low low' (a ∷ offsets) h (l, i) = (omega arith, i)

insert-least :
    (a : ℕ) (offsets : List ℕ) → Increasing (a + 1) offsets → insert_unique a offsets ≡ a ∷ offsets
unfolding Increasing insert_unique
insert-least a [] i = refl
insert-least a (b ∷ bs) (l, i) = let less : ltb a b ≡ true = ground arith in rw less refl

sorted_unique_same :
    (low : ℕ) (offsets : List ℕ) → Increasing low offsets → sorted_unique offsets ≡ offsets
unfolding Increasing sorted_unique
sorted_unique_same low [] i = refl
sorted_unique_same low (a ∷ offsets) (l, i) =
    ap (insert_unique a) (sorted_unique_same (a + 1) offsets i) ∙ insert-least a offsets i

anchors_from-Increasing :
    (encode : Text → Bytes) (cursor : ℕ) (lines : List Text)
    → Increasing cursor (anchors_from encode cursor lines)
unfolding anchors_from Increasing
anchors_from-Increasing encode cursor [] = tt
anchors_from-Increasing encode cursor (line ∷ lines) =
    let next = cursor + length (encode line) + 1 in
    let later = anchors_from-Increasing encode next lines in
    elim (Bool-cases (marks line)) [
      | inl mark ↦ rw mark (
        omega arith,
        Increasing-weaken next (cursor + 1) (anchors_from encode next lines) (omega arith) later,
      )
      | inr other ↦
          rw other
            (Increasing-weaken next cursor (anchors_from encode next lines) (omega arith) later)
    ]

unfoldable pub Occurs : ℕ → List ℕ → Type 0
Occurs a [] = ⊥
Occurs a (b ∷ offsets) = (a ≡ b) ⊎ Occurs a offsets

-- lines with the newline behind each
unfoldable pub closed : List Text → Text
closed [] = []
closed (line ∷ lines) = line ++ (10 ∷ closed lines)

-- A marked line of `lines` starts `a` bytes behind the byte `cursor`, where they start.
abbrev pub Starts : (Text → Bytes) → ℕ → List Text → ℕ → Type 0
Starts encode cursor lines a =
    (before : List Text) × (line : Text) × (rest : List Text) × (lines ≡ before ++ line ∷ rest)
    × (marks line ≡ true)
    × (a ≡ cursor + length (encode (closed before)))

-- UTF-8 encodes the codes of a text one after the other, and a newline as one byte.
pub record Concatenates (encode : Text → Bytes) : Type 0 where
  pub append : (s t : Text) → encode (s ++ t) ≡ encode s ++ encode t
  pub newline : encode (10 ∷ []) ≡ 10 ∷ []

module _ (encode : Text → Bytes) (utf8 : Concatenates encode) where
  encode-closed_nil : length (encode (closed [])) ≡ 0
  unfolding closed
  encode-closed_nil =
      let e = ap length (utf8.append [] []) ∙ length-append (encode []) (encode []) in
      omega (arith, e)

  encode-closed_cons :
      (line : Text) (lines : List Text)
      → length (encode (closed (line ∷ lines)))
        ≡ length (encode line) + 1 + length (encode (closed lines))
  unfolding closed
  encode-closed_cons line lines =
      let e =
        ap length (utf8.append line (10 ∷ closed lines))
        ∙ length-append (encode line) (encode (10 ∷ closed lines)) in
      let f =
        ap length (utf8.append (10 ∷ []) (closed lines))
        ∙ length-append (encode (10 ∷ [])) (encode (closed lines)) in
      let g = ap length utf8.newline in omega (arith, e, f, g)

  Occurs-Starts :
      (cursor : ℕ) (lines : List Text) (a : ℕ)
      → Occurs a (anchors_from encode cursor lines)
      → Starts encode cursor lines a
  unfolding anchors_from Occurs
  Occurs-Starts cursor (line ∷ lines) a o = elim (Bool-cases (marks line)) [
    | inl mark ↦ elim (rw mark at o) [
      | inl e ↦ ([], line, lines, refl, mark, omega (arith, e, encode-closed_nil))
      | inr later ↦ further (Occurs-Starts (cursor + length (encode line) + 1) lines a later)
    ]
    | inr other ↦
        further (Occurs-Starts (cursor + length (encode line) + 1) lines a (rw other at o))
  ]
    where
      further :
          Starts encode (cursor + length (encode line) + 1) lines a
          → Starts encode cursor (line ∷ lines) a
      further (before, here, rest, e, mark, at_) = (
        line ∷ before,
        here,
        rest,
        ap (λ ls. line ∷ ls) e,
        mark,
        omega (arith, at_, encode-closed_cons line before),
      )
  Occurs-Starts cursor [] a o = absurd o

  Starts-Occurs :
      (cursor : ℕ) (before : List Text) (line : Text) (rest : List Text)
      → marks line ≡ true
      → Occurs
          (cursor + length (encode (closed before)))
          (anchors_from encode cursor (before ++ line ∷ rest))
  unfolding anchors_from Occurs
  Starts-Occurs cursor [] line rest mark = rw mark (inl (omega (arith, encode-closed_nil)))
  Starts-Occurs cursor (first ∷ before) line rest mark =
      let next = cursor + length (encode first) + 1 in
      let later = Starts-Occurs next before line rest mark in
      let same : next + length (encode (closed before))
          ≡ cursor + length (encode (closed (first ∷ before))) =
        omega (arith, encode-closed_cons first before) in
      let moved =
        subst (λ a. Occurs a (anchors_from encode next (before ++ line ∷ rest))) same later in
      elim (Bool-cases (marks first)) [
        | inl here ↦ rw here (inr moved)
        | inr other ↦ rw other moved
      ]

-- The anchors of a scene increase strictly, and are the offsets in its bytes at which a marked line
-- starts, all of them and no others, where decoding the bytes gives the text that they encode and
-- UTF-8 encodes the parts of a text one after the other, a newline as one byte.
pub extract_semantic_anchors-Starts :
    (utf8 : Utf8) (concatenates : Concatenates utf8.encode) (text : Text) (a : ℕ)
    → utf8.decode_replace (utf8.encode text) ≡ text
    → Increasing 0 (extract_semantic_anchors utf8 (utf8.encode text))
      × (Occurs a (extract_semantic_anchors utf8 (utf8.encode text))
          ↔ Starts utf8.encode 0 (split 10 text) a)
unfolding extract_semantic_anchors
extract_semantic_anchors-Starts utf8 concatenates text a back =
    let offsets = anchors_from utf8.encode 0 (split 10 text) in
    let order = anchors_from-Increasing utf8.encode 0 (split 10 text) in
    rw (back, extract_semantic_anchors)
      (subst
        (λ marked. Increasing 0 marked × (Occurs a marked ↔ Starts utf8.encode 0 (split 10 text) a))
        (sym (sorted_unique_same 0 offsets order))
        (
          order,
          (
            Occurs-Starts utf8.encode concatenates 0 (split 10 text) a,
            λ (before, line, rest, e, mark, at_).
                subst (λ b. Occurs b (anchors_from utf8.encode 0 (split 10 text))) (sym at_)
                  (subst
                    (λ ls.
                      Occurs (0 + length (utf8.encode (closed before)))
                        (anchors_from utf8.encode 0 ls))
                    (sym e) (Starts-Occurs utf8.encode concatenates 0 before line rest mark)),
          ),
        ))
