-- ===== src/Canonical/Block.antt =====
-- One round of the loop of `_zero_pointers`: the parts of a block and of its zeroed form.
use mathlib.Core.List.{append_assoc}
use zeno_plugin.Prelude.{
  ℕ, zero, suc, ◌+◌, ◌-◌, ◌≤◌, ◌<◌, ◌≡◌, refl, sym, ap, ◌∙◌, inl, inr, Bool, false, ◌++◌, arith,
  ltb, length, take, drop, slice, replicate, length-append, length-take, length-drop,
  length-replicate, take-append_of_eq, drop-append_of_eq, take-take, drop-take, Bool-cases,
}
use zeno_plugin.Prelude.Text.{codes, text_eq}
use zeno_plugin.Chunking.{Bytes}
use zeno_plugin.Canonical.{
  BlendAbi, unpack_u32, fixed_hdr, is_end, block_total, zero_block, zero_loop, zero_blocks,
}

-- A whole block stands at the front, and it is not the end block.
abbrev pub HasBlock : BlendAbi → Bytes → Type 0
HasBlock abi rest = (block_total abi rest ≤ length rest) × (is_end rest ≡ false)

-- more fuel than bytes changes nothing
zero_loop_fuel :
    (m n : ℕ) (abi : BlendAbi) (rest : Bytes)
    → length rest < m
    → length rest < n
    → zero_loop m abi rest ≡ zero_loop n abi rest
unfolding zero_loop
zero_loop_fuel zero n abi rest a b = absurd (omega arith)
zero_loop_fuel (suc m) zero abi rest a b = absurd (omega arith)
zero_loop_fuel (suc m) (suc n) abi rest a b =
    elim (Bool-cases (ltb (length rest) (fixed_hdr abi))) [
      | inl short ↦ rw short refl
      | inr long ↦
          let fits : fixed_hdr abi ≤ length rest = ground arith in
          let shorter : length (drop (block_total abi rest) rest) < length rest =
            omega (arith, length-drop (block_total abi rest) rest) in
          rw (zero_loop_fuel m n abi (drop (block_total abi rest) rest) (omega arith) (omega arith))
            refl
    ]

pub zero_blocks_block :
    (abi : BlendAbi) (rest : Bytes)
    → HasBlock abi rest
    → zero_blocks abi rest
      ≡ zero_block abi rest (zero_blocks abi (drop (block_total abi rest) rest))
unfolding zero_blocks zero_loop
zero_blocks_block abi rest (whole, go_on) =
    let long : ltb (length rest) (fixed_hdr abi) ≡ false = ground arith in
    let there : ltb (length rest) (block_total abi rest) ≡ false = ground arith in
    let shorter : length (drop (block_total abi rest) rest) < length rest =
      omega (arith, length-drop (block_total abi rest) rest) in
    rw
      (
        long,
        go_on,
        there,
        zero_loop_fuel (length rest) (suc (length (drop (block_total abi rest) rest))) abi
            (drop (block_total abi rest) rest) shorter (omega arith),
      )
      refl

-- The size of a block is read from its first 8 bytes.
pub same_total :
    (abi : BlendAbi) (a b : Bytes) → take 8 a ≡ take 8 b → block_total abi a ≡ block_total abi b
same_total abi a b e =
    let size_field : take 4 (drop 4 a) ≡ take 4 (drop 4 b) =
      sym (drop-take 4 8 a) ∙ ap (drop 4) e ∙ drop-take 4 8 b in
    ap (λ f. fixed_hdr abi + unpack_u32 abi.little_endian f) size_field

-- What the parts of a rebuilt block are.
module _ (abi : BlendAbi) (rest : Bytes) (p : HasBlock abi rest) where
  length-head : length (take 8 rest) ≡ 8
  length-head = omega (arith, length-take 8 rest, p.0)

  length-payload :
      length (slice rest (8 + abi.ptr_size) (block_total abi rest)) + (8 + abi.ptr_size)
      ≡ block_total abi rest
  length-payload = omega (
    arith,
    length-take (block_total abi rest - (8 + abi.ptr_size)) (drop (8 + abi.ptr_size) rest),
    length-drop (8 + abi.ptr_size) rest,
    p.0,
  )

  pub length-zero_block :
      (tail : Bytes) → length (zero_block abi rest tail) ≡ block_total abi rest + length tail
  length-zero_block tail =
      let payload = slice rest (8 + abi.ptr_size) (block_total abi rest) in
      omega (
        arith,
        length-append (take 8 rest) (replicate abi.ptr_size 0 ++ (payload ++ tail)),
        length-append (replicate abi.ptr_size 0) (payload ++ tail),
        length-append payload tail,
        length-replicate {A = ℕ} abi.ptr_size 0,
        length-head,
        length-payload,
      )

  pub take-zero_block : (tail : Bytes) → take 8 (zero_block abi rest tail) ≡ take 8 rest
  take-zero_block tail = take-append_of_eq 8 (take 8 rest) _ length-head

  pub block_total-zero_block :
      (tail : Bytes) → block_total abi (zero_block abi rest tail) ≡ block_total abi rest
  block_total-zero_block tail =
      same_total abi (zero_block abi rest tail) rest (take-zero_block tail)

  drop-zero_block : (tail : Bytes) → drop (block_total abi rest) (zero_block abi rest tail) ≡ tail
  drop-zero_block tail =
      let payload = slice rest (8 + abi.ptr_size) (block_total abi rest) in
      let front = (take 8 rest ++ replicate abi.ptr_size 0) ++ payload in
      let apart : zero_block abi rest tail ≡ front ++ tail =
        sym (append_assoc (take 8 rest) (replicate abi.ptr_size 0) (payload ++ tail))
        ∙ sym (append_assoc (take 8 rest ++ replicate abi.ptr_size 0) payload tail) in
      let long : length front ≡ block_total abi rest = omega (
        arith,
        length-append (take 8 rest ++ replicate abi.ptr_size 0) payload,
        length-append (take 8 rest) (replicate abi.ptr_size 0),
        length-replicate {A = ℕ} abi.ptr_size 0,
        length-head,
        length-payload,
      ) in
      ap (drop (block_total abi rest)) apart
      ∙ drop-append_of_eq (block_total abi rest) front tail long

  pub slice-zero_block :
      (tail : Bytes)
      → slice (zero_block abi rest tail) (8 + abi.ptr_size) (block_total abi rest)
        ≡ slice rest (8 + abi.ptr_size) (block_total abi rest)
  slice-zero_block tail =
      let payload = slice rest (8 + abi.ptr_size) (block_total abi rest) in
      let head = take 8 rest ++ replicate abi.ptr_size 0 in
      let long : length head ≡ 8 + abi.ptr_size = omega (
        arith,
        length-append (take 8 rest) (replicate abi.ptr_size 0),
        length-replicate {A = ℕ} abi.ptr_size 0,
        length-head,
      ) in
      let behind : drop (8 + abi.ptr_size) (zero_block abi rest tail) ≡ payload ++ tail =
        ap (drop (8 + abi.ptr_size))
          (sym (append_assoc (take 8 rest) (replicate abi.ptr_size 0) (payload ++ tail)))
        ∙ drop-append_of_eq (8 + abi.ptr_size) head (payload ++ tail) long in
      ap (take (block_total abi rest - (8 + abi.ptr_size))) behind
      ∙ take-append_of_eq _ payload tail (omega (arith, length-payload))

  pub zero_block_again :
      (tail u : Bytes) → zero_block abi (zero_block abi rest tail) u ≡ zero_block abi rest u
  zero_block_again tail u =
      let z = zero_block abi rest tail in
      let zeros = replicate abi.ptr_size 0 in
      ap (λ h. h ++ (zeros ++ (slice z (8 + abi.ptr_size) (block_total abi z) ++ u)))
        (take-zero_block tail)
      ∙ ap (λ n. take 8 rest ++ (zeros ++ (slice z (8 + abi.ptr_size) n ++ u)))
          (block_total-zero_block tail)
      ∙ ap (λ x. take 8 rest ++ (zeros ++ (x ++ u))) (slice-zero_block tail)

  pub drop-zero_block_again :
      (tail : Bytes)
      → drop (block_total abi (zero_block abi rest tail)) (zero_block abi rest tail) ≡ tail
  drop-zero_block_again tail =
      ap (λ n. drop n (zero_block abi rest tail)) (block_total-zero_block tail)
      ∙ drop-zero_block tail

  pub HasBlock-zero_block : (tail : Bytes) → HasBlock abi (zero_block abi rest tail)
  HasBlock-zero_block tail = (
    omega (arith, length-zero_block tail, block_total-zero_block tail),
    ap is_end_code (take-zero_code tail) ∙ p.1,
  )
    where
      is_end_code : Bytes → Bool
      is_end_code code = text_eq code (codes "ENDB")

      take-zero_code : (tail : Bytes) → take 4 (zero_block abi rest tail) ≡ take 4 rest
      take-zero_code tail =
          sym (take-take 4 8 (zero_block abi rest tail) (omega arith))
          ∙ ap (take 4) (take-zero_block tail)
          ∙ take-take 4 8 rest (omega arith)
