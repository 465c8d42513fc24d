-- ===== src/Tests/Servers.antt =====
-- A server in memory, with a digest of one letter.
use zeno_plugin.Prelude.{
  ℕ, ◌+◌, ◌*◌, ◌≡◌, refl, ap, ◌⊎◌, inl, inr, Bool, true, false, none, List, [], ◌∷◌, arith, any,
  ◌≤◌, if◌then◌else◌, Bool-cases,
}
use zeno_plugin.Prelude.Text.{
  Text, codes, text_eq, text_eq_iff, strip, lower, lstrip, is_space, lower_code,
}
use zeno_plugin.Prelude.Result.{Result, ok, err}
use zeno_plugin.Chunking.{Bytes}
use zeno_plugin.Manifest.RoundTrip.{IsClean}
use zeno_plugin.Manifest.Value.{null}
use zeno_plugin.Client.{Registration, Api}
use zeno_plugin.Client.Laws.{View, Lawful, Serves}

-- A digest of one letter, which is no capital and no blank.
abbrev pub folded : Bytes → ℕ
folded [] = 0
folded (c ∷ b) = c + 256 * folded b + 1

abbrev pub digest : Bytes → Text
digest b = (20000 + folded b) ∷ []

one-IsClean : (c : ℕ) → 20000 ≤ c → IsClean (c ∷ [])
unfolding strip lower lstrip
one-IsClean c h =
    let blank : is_space c ≡ false = ground arith in
    let small : lower_code c ≡ c = ground arith in rw (blank, blank) (ap (λ k. k ∷ []) small)

pub digest-IsClean : (b : Bytes) → IsClean (digest b)
digest-IsClean b = one-IsClean (20000 + folded b) (omega arith)

-- The blobs that the server holds, and its registrations.
pub record Server : Type 0 where
  pub blobs : List Bytes
  pub versions : List Registration

abbrev pub is_blob : Text → Bytes → Bool
is_blob h b = text_eq (digest b) h

abbrev pub find : Text → List Bytes → Result Text Bytes
find h [] = err (codes "NotFound")
find h (b ∷ bs) = if is_blob h b then ok b else find h bs

abbrev pub Listed : Registration → List Registration → Type 0
Listed x [] = ⊥
Listed x (r ∷ rs) = (x ≡ r) ⊎ Listed x rs

abbrev pub view : View Server
view = record {
  Has = λ h s. any (is_blob h) s.blobs ≡ true;
  Registered = λ x s. Listed x s.versions;
}

abbrev pub api : Api Server
api = record {
  blob_exists = λ h s. (ok (any (is_blob h) s.blobs), s);
  upload = λ b h s.
      if is_blob h b
      then (ok tt, record s { blobs = b ∷ s.blobs })
      else (err (codes "ValidationError"), s);
  register_version = λ r s. (ok null, record s { versions = r ∷ s.versions });
  resolve_storage = λ _ s. (err (codes "NotFound"), s);
  get_blob_bytes = λ h s. (find h s.blobs, s);
  latest_content_id = λ _ _ _ _ s. (ok none, s);
}

uploaded_keeps :
    (b : Bytes) (h k : Text) (s : Server) → view.Has k s → view.Has k (api.upload b h s).1
uploaded_keeps b h k s old = ground (arith, old)

uploaded_adds :
    (b : Bytes) (h : Text) (x : Registration) (s : Server)
    → view.Registered x (api.upload b h s).1
    → view.Registered x s
uploaded_adds b h x s new = elim (Bool-cases (is_blob h b)) [
  | inl t ↦ rw t at new
  | inr f ↦ rw f at new
]

pub api-Lawful : Lawful view api digest
api-Lawful = record {
  exists_keeps = λ h s. ((λ _ k. k), (λ _ k. k));
  exists_true = λ h s e. cc;
  upload_keeps = λ b h s. ((λ k. uploaded_keeps b h k s), (λ x. uploaded_adds b h x s));
  upload_stores = λ b h s good e. ground (arith, (text_eq_iff (digest b) h).1 good);
  resolve_keeps = λ f s. ((λ _ k. k), (λ _ k. k));
  get_keeps = λ h s. ((λ _ k. k), (λ _ k. k));
  latest_keeps = λ p a r k s. ((λ _ k. k), (λ _ k. k));
  register_keeps = λ r s _ k. k;
  register_adds = λ r x s added. added;
}

found :
    (h : Text) (bs : List Bytes)
    → any (is_blob h) bs ≡ true
    → (b : Bytes) × (find h bs ≡ ok b) × (digest b ≡ h)
found h [] e = absurd cc
found h (b ∷ bs) e = elim (Bool-cases (is_blob h b)) [
  | inl t ↦ (b, rw t refl, (text_eq_iff (digest b) h).0 t)
  | inr f ↦ let (c, p, q) = found h bs (ground arith) in (c, rw f p, q)
]

pub api-Serves : Serves view api digest
api-Serves = record {
  exists_answers = λ h s. (any (is_blob h) s.blobs, refl);
  upload_taken = λ b h s good. rw ((text_eq_iff (digest b) h).1 good) refl;
  get_returns = λ h s there. found h s.blobs there;
}
