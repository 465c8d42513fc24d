-- ===== src/Chunking/Cut.antt =====
-- `_find_cut`: the cut lies in the buffer, and respects the least size of a chunk.
use Prim.Native.Nat.{min as min_ℕ}
use zeno_plugin.Prelude.{
  ℕ, suc, ◌+◌, ◌-◌, ◌/◌, ◌≤◌, ◌<◌, ◌≡◌, refl, inl, inr, some, List, [], ◌∷◌, ◌&&◌, select, leb,
  arith, length, take, drop, length-take, length-drop, Option-cases, Bool-cases,
}
use zeno_plugin.Chunking.{
  Bytes, Scan, anchor, carried, or_else, gear_step, scan, anchor_cut, find_cut, forced_cut, minimum,
}

or_else_inv :
    (P : ℕ → Type 0) (s : Scan) (next : ℕ → ℕ)
    → ((c : ℕ) → s ≡ anchor c → P c)
    → ((h : ℕ) → P (next h))
    → P (or_else s next)
or_else_inv P (anchor c) next found behind = found c refl
or_else_inv P (carried h) next found behind = behind h

-- An anchor is found behind the first position and within the bytes that are scanned.
scan_bounds :
    (gear : ℕ → ℕ) (mask i h : ℕ) (bs : Bytes) (c : ℕ)
    → scan gear mask i h bs ≡ anchor c
    → (i < c) × (c ≤ i + length bs)
unfolding scan
scan_bounds gear mask i h [] c e = cc
scan_bounds gear mask i h (b ∷ bs) c e =
    ground (arith, scan_bounds gear mask (suc i) (gear_step gear h b) bs c)

minimum_of_select :
    (lo hi : ℕ) (cs : List ℕ) (c : ℕ)
    → minimum (select (λ c. leb lo c && leb c hi) cs) ≡ some c
    → (lo ≤ c) × (c ≤ hi)
unfolding minimum
minimum_of_select lo hi [] c e = cc
minimum_of_select lo hi (x ∷ cs) c e = elim (Bool-cases (leb lo x && leb x hi)) [
  | inl keep ↦ elim (Option-cases (minimum (select (λ c. leb lo c && leb c hi) cs))) [
    | inl last ↦ ground (arith, last, keep)
    | inr (d, more) ↦ ground (arith, more, keep, minimum_of_select lo hi cs d more)
  ]
  | inr skip ↦ minimum_of_select lo hi cs c (ground (arith, skip))
]

pub forced_cut_bounds :
    (lo hi : ℕ) (cs : List ℕ) (c : ℕ) → forced_cut lo hi cs ≡ some c → (0 < c) × (lo ≤ c) × (c ≤ hi)
unfolding forced_cut
forced_cut_bounds lo hi cs c e =
    elim (Option-cases (minimum (select (λ c. leb lo c && leb c hi) cs))) [
      | inl nothing ↦ ground (arith, nothing)
      | inr (d, least) ↦ ground (arith, least, minimum_of_select lo hi cs d least)
    ]

-- What a cut of a buffer of `n` bytes has to meet, with chunks of at least `lo` bytes.
abbrev pub IsCut : ℕ → ℕ → ℕ → Type 0
IsCut n lo c = (0 < c) × (c ≤ n) × (lo ≤ c)

module _ (gear : ℕ → ℕ) (buf : Bytes) (min_size mid mask_small mask_large : ℕ) where
  -- With `lo` no more than the two places where the scans start.
  anchor_cut-IsCut :
      (lo : ℕ)
      → lo ≤ min_size
      → lo ≤ mid
      → min_size < length buf
      → mid ≤ length buf
      → IsCut (length buf) lo (anchor_cut gear buf min_size mid mask_small mask_large)
  unfolding anchor_cut
  anchor_cut-IsCut lo a b h k =
      or_else_inv (IsCut (length buf) lo) _ _
        (λ c e.
          let (p, q) = scan_bounds gear mask_small min_size 0 first c e in
          omega (arith, sizes, p, q))
        λ g.
          or_else_inv (IsCut (length buf) lo) _ _
            (λ c e.
              let (p, q) = scan_bounds gear mask_large mid g (drop mid buf) c e in
              omega (arith, length-drop mid buf, p, q))
            λ _. omega arith
    where
      first : Bytes
      first = take (mid - min_size) (drop min_size buf)

      sizes : length first ≡ min_ℕ (mid - min_size) (length buf - min_size)
      sizes =
          omega (arith, length-take (mid - min_size) (drop min_size buf), length-drop min_size buf)

module _ (gear : ℕ → ℕ) (buf : Bytes) (min_size max_size mask_small mask_large : ℕ) where
  find_cut-IsCut :
      (forced : List ℕ) (lo : ℕ)
      → lo ≤ min_size
      → lo ≤ (min_size + max_size) / 2
      → lo ≤ length buf
      → 0 < length buf
      → IsCut (length buf) lo (find_cut gear buf min_size max_size mask_small mask_large forced)
  unfolding find_cut
  find_cut-IsCut forced lo a b fits nonempty = elim (Bool-cases (leb (length buf) min_size)) [
    | inl short ↦ rw short (nonempty, omega arith, fits)
    | inr long ↦ rw long (elim (Option-cases (forced_cut min_size (length buf) forced)) [
      | inl free ↦
          rw (free, find_cut)
            (anchor_cut-IsCut gear buf min_size _ mask_small mask_large lo a (omega arith)
              (ground arith) (omega arith))
      | inr (c, cut) ↦
          rw (cut, find_cut)
            (let p = forced_cut_bounds min_size (length buf) forced c cut in omega (arith, p))
    ])
  ]

-- A cut of a nonempty buffer is a nonempty prefix of it; if `min_size ≤ max_size`, the cut is
-- also no shorter than `min_size`, except for a buffer that is itself shorter.
pub find_cut_bounds :
    (gear : ℕ → ℕ) (buf : Bytes) (min_size max_size mask_small mask_large : ℕ) (forced : List ℕ)
    → 0 < length buf
    → (0 < find_cut gear buf min_size max_size mask_small mask_large forced)
      × (find_cut gear buf min_size max_size mask_small mask_large forced ≤ length buf)
      × (min_size ≤ max_size
          → min_ℕ min_size (length buf)
            ≤ find_cut gear buf min_size max_size mask_small mask_large forced)
find_cut_bounds gear buf min_size max_size mask_small mask_large forced nonempty =
    let cut =
      λ (lo : ℕ) (a : lo ≤ min_size) (b : lo ≤ (min_size + max_size) / 2) (c : lo ≤ length buf).
        find_cut-IsCut gear buf min_size max_size mask_small mask_large forced lo a b c nonempty in
    let zero_lo = cut 0 (omega arith) (omega arith) (omega arith) in
    (
      zero_lo.0,
      zero_lo.1,
      λ h. (cut (min_ℕ min_size (length buf)) (omega arith) (omega arith) (omega arith)).2,
    )
