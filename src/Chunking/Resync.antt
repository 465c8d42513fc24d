-- ===== src/Chunking/Resync.antt =====
-- Deduplication: chunks behind a common cut do not depend on what stands before it.
use Prim.Native.Nat.{min as min_ℕ}
use mathlib.Core.List.{head-eq_of_cons-eq, tail-eq_of_cons-eq}
use zeno_plugin.Prelude.{
  ℕ, zero, suc, ◌+◌, ◌≤◌, ◌<◌, ◌≡◌, refl, sym, ap, ◌∙◌, false, List, [], ◌∷◌, ◌++◌, map, ltb, ◌==◌,
  arith, length, take, drop, length-take, length-drop, length-append, drop-append_of_le,
}
use zeno_plugin.Prelude.Text.{Text}
use zeno_plugin.Chunking.{Bytes, ChunkingConfig, Chunk, cut_at, iter_loop, iter_chunks}
use zeno_plugin.Chunking.Cover.{cut_at_bounds, window, window_pos, iter_loop_step}

abbrev pub hashes : List Chunk → List Text
hashes = map (λ c. c.content_hash)

abbrev pub total_size : List Chunk → ℕ
total_size [] = 0
total_size (c ∷ cs) = c.size + total_size cs

module _ (gear : ℕ → ℕ) (hash : Bytes → Text) (cfg : ChunkingConfig) (m : 0 < cfg.max) where
  hashes-shift :
      (f g o p : ℕ) (rest : Bytes) (s t : ℕ)
      → length rest ≤ f
      → length rest ≤ g
      → s ≡ o + length rest
      → t ≡ p + length rest
      → hashes (iter_loop gear hash cfg [] f s o rest)
        ≡ hashes (iter_loop gear hash cfg [] g t p rest)
  unfolding iter_loop cut_at
  hashes-shift zero zero o p rest s t a b c d = refl
  hashes-shift zero (suc g) o p [] s t a b c d =
      let done : ltb p t ≡ false = ground arith in rw done refl
  hashes-shift (suc f) zero o p [] s t a b c d =
      let done : ltb o s ≡ false = ground arith in rw done refl
  hashes-shift zero (suc g) o p (x ∷ rest) s t a b c d = absurd (omega arith)
  hashes-shift (suc f) zero o p (x ∷ rest) s t a b c d = absurd (omega arith)
  hashes-shift (suc f) (suc g) o p [] s t a b c d =
      let done : ltb o s ≡ false = ground arith in
      let done' : ltb p t ≡ false = ground arith in rw (done, done') refl
  hashes-shift (suc f) (suc g) o p (x ∷ xs) s t a b c d =
      let rest = x ∷ xs in
      let buf = window gear hash cfg [] (length rest) rest in
      let filled = window_pos gear hash cfg [] (length rest) rest m (omega arith) (omega arith) in
      let cut = cut_at gear hash cfg [] buf o in
      let bounds = cut_at_bounds gear hash cfg [] buf o filled in
      let left = length-drop cut rest in
      let width = length-take (min_ℕ cfg.max (length rest)) rest in
      rw
        (
          iter_loop_step gear hash cfg [] f o rest s m (omega arith) c,
          iter_loop_step gear hash cfg [] g p rest t m (omega arith) d,
        )
        (ap (◌∷◌ (hash (take cut rest))) (
          hashes-shift f g (o + cut) (p + cut) (drop cut rest) s t (omega (arith, left, bounds.0))
            (omega (arith, left, bounds.0)) (omega (arith, left, width, bounds.1))
            (omega (arith, left, width, bounds.1))))

  iter_chunks_nonempty :
      (file : Bytes)
      → 0 < length file
      → iter_chunks gear hash cfg [] file
        ≡ iter_loop gear hash cfg [] (length file) (length file) 0 file
  unfolding iter_chunks
  iter_chunks_nonempty file h = let full : (length file == 0) ≡ false = ground arith in rw full refl

  loop_resync :
      (pre post : List Chunk) (f o : ℕ) (a t : Bytes) (s : ℕ)
      → length (a ++ t) ≤ f
      → s ≡ o + length (a ++ t)
      → 0 < length t
      → iter_loop gear hash cfg [] f s o (a ++ t) ≡ pre ++ post
      → total_size pre ≡ length a
      → hashes post ≡ hashes (iter_loop gear hash cfg [] (length t) (length t) 0 t)
  loop_resync [] post f o [] t s b c h e sizes =
      ap hashes (sym e)
      ∙ hashes-shift f (length t) o 0 t s (length t) b (omega arith) c (omega arith)
  loop_resync [] post f o (x ∷ a) t s b c h e sizes = absurd (omega arith)
  loop_resync (k ∷ pre) post zero o a t s b c h e sizes = absurd (omega (arith, length-append a t))
  loop_resync (k ∷ pre) post (suc f) o a t s b c h e sizes =
      let joined = length-append a t in
      let buf = window gear hash cfg [] (length (a ++ t)) (a ++ t) in
      let filled =
        window_pos gear hash cfg [] (length (a ++ t)) (a ++ t) m (omega (arith, joined))
          (omega arith) in
      let cut = cut_at gear hash cfg [] buf o in
      let bounds = cut_at_bounds gear hash cfg [] buf o filled in
      let whole =
        sym (iter_loop_step gear hash cfg [] f o (a ++ t) s m (omega (arith, joined)) c) ∙ e in
      let first : cut ≡ k.size = ap (λ (d : Chunk). d.size) (head-eq_of_cons-eq whole) in
      let rest = tail-eq_of_cons-eq whole in
      let split = drop-append_of_le cut a t (omega (arith, first, sizes)) in
      let left = length-drop cut a in
      let joined' = length-append (drop cut a) t in
      loop_resync pre post f (o + cut) (drop cut a) t s
        (omega (arith, left, joined, joined', first, sizes, bounds.0))
        (omega (arith, left, joined, joined', first, sizes)) h (rw (← split) rest)
        (omega (arith, left, first, sizes))

  -- Two files that end in the same nonempty bytes `t`, behind `a` and behind `b`: wherever a cut
  -- of each falls at the start of `t`, the chunks behind it have the same hashes, in the same
  -- order, so that all of them are stored once. (Chunks may hold a byte, and no cut is forced.)
  pub resync :
      (a b t : Bytes) (pre_a post_a pre_b post_b : List Chunk)
      → 0 < length t
      → iter_chunks gear hash cfg [] (a ++ t) ≡ pre_a ++ post_a
      → total_size pre_a ≡ length a
      → iter_chunks gear hash cfg [] (b ++ t) ≡ pre_b ++ post_b
      → total_size pre_b ≡ length b
      → hashes post_a ≡ hashes post_b
  resync a b t pre_a post_a pre_b post_b h e p e' p' =
      tail_hashes a pre_a post_a h e p ∙ sym (tail_hashes b pre_b post_b h e' p')
    where
      tail_hashes :
          (a : Bytes) (pre post : List Chunk)
          → 0 < length t
          → iter_chunks gear hash cfg [] (a ++ t) ≡ pre ++ post
          → total_size pre ≡ length a
          → hashes post ≡ hashes (iter_loop gear hash cfg [] (length t) (length t) 0 t)
      tail_hashes a pre post h e p =
          loop_resync pre post (length (a ++ t)) 0 a t (length (a ++ t)) (omega arith) (omega arith)
            h (sym (iter_chunks_nonempty (a ++ t) (omega (arith, length-append a t))) ∙ e) p
