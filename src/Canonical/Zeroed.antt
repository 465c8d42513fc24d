-- ===== src/Canonical/Zeroed.antt =====
-- `_zero_pointers`: the pointers are forgotten, and little else is.
use mathlib.Core.Path.{subst}
use mathlib.Core.List.{append_assoc, append-nil}
use zeno_plugin.Prelude.{
  ℕ, zero, suc, ◌+◌, ◌<◌, ◌≡◌, refl, sym, ap, ◌∙◌, ◌⊎◌, inl, inr, true, [], ◌++◌, arith, ltb,
  length, take, drop, slice, replicate, length-drop, Bool-cases,
}
use zeno_plugin.Chunking.{Bytes}
use zeno_plugin.Canonical.{
  BlendAbi, fixed_hdr, is_end, block_total, zero_block, zero_loop, zero_blocks,
}
use zeno_plugin.Canonical.Block.{
  HasBlock, zero_blocks_block, take-zero_block, block_total-zero_block, slice-zero_block,
  HasBlock-zero_block, zero_block_again, drop-zero_block_again,
}

-- Two files that differ only in the pointers of their blocks.
pub data Alike (abi : BlendAbi) : Bytes → Bytes → Type 0 where
  same : {a : Bytes} → Alike abi a a
  block :
      {a b : Bytes}
      → HasBlock abi a
      → HasBlock abi b
      → take 8 a ≡ take 8 b
      → slice a (8 + abi.ptr_size) (block_total abi a)
        ≡ slice b (8 + abi.ptr_size) (block_total abi b)
      → Alike abi (drop (block_total abi a) a) (drop (block_total abi b) b)
      → Alike abi a b

-- Files that differ only in the pointers of their blocks have the same canonical blocks.
pub zero_blocks-Alike :
    (abi : BlendAbi) {a b : Bytes} → Alike abi a b → zero_blocks abi a ≡ zero_blocks abi b
zero_blocks-Alike abi same = refl
zero_blocks-Alike abi (block {a} {b} p q head payload rest) =
    zero_blocks_block abi a p
    ∙ ap
        (λ h.
          h
          ++ (replicate abi.ptr_size 0
              ++ (slice a (8 + abi.ptr_size) (block_total abi a)
                  ++ zero_blocks abi (drop (block_total abi a) a))))
        head
    ∙ ap
        (λ s.
          take 8 b
          ++ (replicate abi.ptr_size 0 ++ (s ++ zero_blocks abi (drop (block_total abi a) a))))
        payload
    ∙ ap (zero_block abi b) (zero_blocks-Alike abi rest)
    ∙ sym (zero_blocks_block abi b q)

zero_blocks_cases :
    (abi : BlendAbi) (rest : Bytes)
    → ((zero_blocks abi rest ≡ []) × (length rest < fixed_hdr abi))
      ⊎ ((zero_blocks abi rest ≡ rest) ⊎ HasBlock abi rest)
unfolding zero_blocks zero_loop
zero_blocks_cases abi rest = elim (Bool-cases (ltb (length rest) (fixed_hdr abi))) [
  | inl short ↦ inl (rw short (refl, ground arith))
  | inr long ↦ elim (Bool-cases (is_end rest)) [
    | inl over ↦ inr (inl (rw (long, over) refl))
    | inr go_on ↦ elim (Bool-cases (ltb (length rest) (block_total abi rest))) [
      | inl cut ↦ inr (inl (rw (long, go_on, cut) refl))
      | inr whole ↦ inr (inr (ground arith, go_on))
    ]
  ]
]

nothing_left : (abi : BlendAbi) → zero_blocks abi [] ≡ []
unfolding zero_blocks zero_loop
nothing_left abi = let short : ltb 0 (fixed_hdr abi) ≡ true = ground arith in rw short refl

zero_again :
    (n : ℕ) (abi : BlendAbi) (rest : Bytes)
    → length rest < n
    → zero_blocks abi (zero_blocks abi rest) ≡ zero_blocks abi rest
zero_again zero abi rest h = absurd (omega arith)
zero_again (suc n) abi rest h = elim (zero_blocks_cases abi rest) [
  | inl (e, short) ↦ ap (zero_blocks abi) e ∙ nothing_left abi ∙ sym e
  | inr (inl e) ↦ ap (zero_blocks abi) e
  | inr (inr p) ↦
      let r = drop (block_total abi rest) rest in
      let t = zero_blocks abi r in
      let shorter : length r < n = omega (arith, length-drop (block_total abi rest) rest, p.0) in
      ap (zero_blocks abi) (zero_blocks_block abi rest p)
      ∙ zero_blocks_block abi (zero_block abi rest t) (HasBlock-zero_block abi rest p t)
      ∙ zero_block_again abi rest p t _
      ∙ ap (λ u. zero_block abi rest (zero_blocks abi u)) (drop-zero_block_again abi rest p t)
      ∙ ap (zero_block abi rest) (zero_again n abi r shorter)
      ∙ sym (zero_blocks_block abi rest p)
]

-- Zeroing the pointers a second time changes nothing.
pub zero_blocks-Idempotent :
    (abi : BlendAbi) (rest : Bytes) → zero_blocks abi (zero_blocks abi rest) ≡ zero_blocks abi rest
zero_blocks-Idempotent abi rest = zero_again (suc (length rest)) abi rest (omega arith)

-- What the output misses of the input.
abbrev pub Loss : BlendAbi → Bytes → Type 0
Loss abi rest =
    (lost : Bytes) × (length lost < fixed_hdr abi) × Alike abi rest (zero_blocks abi rest ++ lost)

joined :
    (abi : BlendAbi) (rest : Bytes)
    → HasBlock abi rest
    → (lost : Bytes)
    → zero_blocks abi rest ++ lost
      ≡ zero_block abi rest (zero_blocks abi (drop (block_total abi rest) rest) ++ lost)
joined abi rest p lost =
    let head = take 8 rest in
    let zeros = replicate abi.ptr_size 0 in
    let payload = slice rest (8 + abi.ptr_size) (block_total abi rest) in
    let tail = zero_blocks abi (drop (block_total abi rest) rest) in
    ap (λ z. z ++ lost) (zero_blocks_block abi rest p)
    ∙ append_assoc head (zeros ++ (payload ++ tail)) lost
    ∙ ap (λ z. head ++ z)
        (append_assoc zeros (payload ++ tail) lost
          ∙ ap (λ z. zeros ++ z) (append_assoc payload tail lost))

loses : (n : ℕ) (abi : BlendAbi) (rest : Bytes) → length rest < n → Loss abi rest
loses zero abi rest h = absurd (omega arith)
loses (suc n) abi rest h = elim (zero_blocks_cases abi rest) [
  | inl (e, short) ↦ (rest, short, subst (λ z. Alike abi rest (z ++ rest)) (sym e) same)
  | inr (inl e) ↦
      ([], omega arith, subst (Alike abi rest) (sym (append-nil (zero_blocks abi rest) ∙ e)) same)
  | inr (inr p) ↦
      let r = drop (block_total abi rest) rest in
      let shorter : length r < n = omega (arith, length-drop (block_total abi rest) rest, p.0) in
      let (lost, short, alike) = loses n abi r shorter in
      (
        lost,
        short,
        subst (Alike abi rest) (sym (joined abi rest p lost)) (
            block p (HasBlock-zero_block abi rest p _) (sym (take-zero_block abi rest p _))
              (sym (
                ap (slice (zero_block abi rest _) (8 + abi.ptr_size))
                  (block_total-zero_block abi rest p _)
                ∙ slice-zero_block abi rest p _))
              (subst (Alike abi r) (sym (drop-zero_block_again abi rest p _)) alike)),
      )
]

-- The output is the input but for the pointers of its blocks, and for less than one block header
-- that is lost at the end of the input.
pub zero_blocks-Loss : (abi : BlendAbi) (rest : Bytes) → Loss abi rest
zero_blocks-Loss abi rest = loses (suc (length rest)) abi rest (omega arith)
