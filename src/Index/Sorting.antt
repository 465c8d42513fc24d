-- ===== src/Index/Sorting.antt =====
-- ORDER BY: what sorting and filtering keep of a table, and how a deletion passes through them.
use zeno_plugin.Prelude.{
  ℕ, ◌≤◌, ◌≡◌, refl, sym, ap, ◌∙◌, Bool, true, false, Option, some, [], ◌∷◌, arith, leb, select,
  inl, inr, Bool-cases,
}
use zeno_plugin.Prelude.Text.{Text, text_eq, text_eq_iff}
use zeno_plugin.Index.{
  CacheEntry, Table, delete_entry, get_entry, insert_by_access, order_by_access,
}
use zeno_plugin.Index.Rows.{All, Free, Unique, All-delete}

pub All_of_get :
    (P : CacheEntry → Type 0) (k : Text) (t : Table) (e : CacheEntry)
    → get_entry k t ≡ some e
    → All P t
    → P e
unfolding get_entry
All_of_get P k [] e h a = absurd (cc)
All_of_get P k (x ∷ t) e h (p, a) = elim (Bool-cases (text_eq x.content_id k)) [
  | inl same ↦ rw (← some_inj' (rw same at h)) p
  | inr other ↦ All_of_get P k t e (rw other at h) a
]
  where
    some_inj' : {x y : CacheEntry} → ◌≡◌ {A = Option CacheEntry} (some x) (some y) → x ≡ y
    some_inj' e = cc

pub All-select :
    (P : CacheEntry → Type 0) (p : CacheEntry → Bool) (t : Table) → All P t → All P (select p t)
All-select P p [] a = tt
All-select P p (e ∷ t) (q, a) = elim (Bool-cases (p e)) [
  | inl keep ↦ rw keep (q, All-select P p t a)
  | inr skip ↦ rw skip (All-select P p t a)
]

pub select-Unique : (p : CacheEntry → Bool) (t : Table) → Unique t → Unique (select p t)
select-Unique p [] u = tt
select-Unique p (e ∷ t) (f, u) = elim (Bool-cases (p e)) [
  | inl keep ↦ rw keep (All-select _ p t f, select-Unique p t u)
  | inr skip ↦ rw skip (select-Unique p t u)
]

pub select-select :
    (p q : CacheEntry → Bool) (t : Table) → select p (select q t) ≡ select q (select p t)
select-select p q [] = refl
select-select p q (e ∷ t) = ground (arith, select-select p q t)

pub All-insert :
    (P : CacheEntry → Type 0) (e : CacheEntry) (t : Table)
    → P e
    → All P t
    → All P (insert_by_access e t)
unfolding insert_by_access
All-insert P e [] p a = (p, tt)
All-insert P e (x ∷ t) p (q, a) = elim (Bool-cases (leb e.last_accessed_at x.last_accessed_at)) [
  | inl first ↦ rw first (p, (q, a))
  | inr later ↦ rw later (q, All-insert P e t p a)
]

pub All-order : (P : CacheEntry → Type 0) (t : Table) → All P t → All P (order_by_access t)
unfolding order_by_access
All-order P [] a = tt
All-order P (e ∷ t) (p, a) = All-insert P e (order_by_access t) p (All-order P t a)

pub Free_sym :
    (e x : CacheEntry)
    → text_eq x.content_id e.content_id ≡ false
    → text_eq e.content_id x.content_id ≡ false
Free_sym e x h =
    ground (arith, text_eq_iff e.content_id x.content_id, text_eq_iff x.content_id e.content_id)

pub insert-Unique :
    (e : CacheEntry) (t : Table) → Free e.content_id t → Unique t → Unique (insert_by_access e t)
unfolding insert_by_access
insert-Unique e [] f u = (tt, tt)
insert-Unique e (x ∷ t) (g, f) (h, u) =
    elim (Bool-cases (leb e.last_accessed_at x.last_accessed_at)) [
      | inl first ↦ rw first ((g, f), (h, u))
      | inr later ↦ rw later (All-insert _ e t (Free_sym e x g) h, insert-Unique e t f u)
    ]

pub order-Unique : (t : Table) → Unique t → Unique (order_by_access t)
unfolding order_by_access
order-Unique [] u = tt
order-Unique (e ∷ t) (f, u) =
    insert-Unique e (order_by_access t) (All-order _ t f) (order-Unique t u)

pub delete_absent : (cid : Text) (t : Table) → Free cid t → delete_entry cid t ≡ t
unfolding delete_entry
delete_absent cid [] f = refl
delete_absent cid (y ∷ t) (a, f) = rw a (ap (◌∷◌ y) (delete_absent cid t f))

pub delete-insert_self :
    (e : CacheEntry) (t : Table)
    → Free e.content_id t
    → delete_entry e.content_id (insert_by_access e t) ≡ t
unfolding delete_entry insert_by_access
delete-insert_self e [] f = ground (arith, text_eq_iff e.content_id e.content_id)
delete-insert_self e (x ∷ t) (g, f) =
    let gone : delete_entry e.content_id t ≡ t = delete_absent e.content_id t f in
    ground (arith, g, gone, text_eq_iff e.content_id e.content_id, delete-insert_self e t f)

-- Sorted by the time of the last access.
abbrev pub Sorted : Table → Type 0
Sorted [] = Unit
Sorted (x ∷ t) = All (λ e. x.last_accessed_at ≤ e.last_accessed_at) t × Sorted t

pub All-le :
    (a b : ℕ) (t : Table)
    → a ≤ b
    → All (λ e. b ≤ e.last_accessed_at) t
    → All (λ e. a ≤ e.last_accessed_at) t
All-le a b [] h q = tt
All-le a b (x ∷ t) h (p, q) = (omega arith, All-le a b t h q)

pub insert-Sorted : (e : CacheEntry) (t : Table) → Sorted t → Sorted (insert_by_access e t)
unfolding insert_by_access
insert-Sorted e [] s = (tt, tt)
insert-Sorted e (x ∷ t) (a, s) = elim (Bool-cases (leb e.last_accessed_at x.last_accessed_at)) [
  | inl first ↦
      let le : e.last_accessed_at ≤ x.last_accessed_at = ground arith in
      rw first ((le, All-le _ _ t le a), (a, s))
  | inr later ↦
      let le : x.last_accessed_at ≤ e.last_accessed_at = ground arith in
      rw later (All-insert _ e t le a, insert-Sorted e t s)
]

pub order_by_access-Sorted : (t : Table) → Sorted (order_by_access t)
unfolding order_by_access
order_by_access-Sorted [] = tt
order_by_access-Sorted (e ∷ t) = insert-Sorted e (order_by_access t) (order_by_access-Sorted t)

pub insert_least :
    (e : CacheEntry) (t : Table)
    → All (λ x. e.last_accessed_at ≤ x.last_accessed_at) t
    → insert_by_access e t ≡ e ∷ t
unfolding insert_by_access
insert_least e [] a = refl
insert_least e (x ∷ t) (p, a) = ground arith

pub delete-insert_ne :
    (k : Text) (e : CacheEntry) (t : Table)
    → text_eq e.content_id k ≡ false
    → Sorted t
    → delete_entry k (insert_by_access e t) ≡ insert_by_access e (delete_entry k t)
unfolding delete_entry insert_by_access
delete-insert_ne k e [] h s = ground arith
delete-insert_ne k e (x ∷ t) h (a, s) =
    elim (Bool-cases (leb e.last_accessed_at x.last_accessed_at)) [
      | inl first ↦
          let le : e.last_accessed_at ≤ x.last_accessed_at = ground arith in
          let below = insert_least e (delete_entry k t) (All-delete _ k t (All-le _ _ t le a)) in
          ground (arith, first, below)
      | inr later ↦ ground (arith, later, delete-insert_ne k e t h s)
    ]

pub delete_cons :
    (k : Text) (e : CacheEntry) (t : Table)
    → text_eq e.content_id k ≡ true
    → delete_entry k (e ∷ t) ≡ delete_entry k t
unfolding delete_entry
delete_cons k e t h = rw h refl

pub delete_cons_ne :
    (k : Text) (e : CacheEntry) (t : Table)
    → text_eq e.content_id k ≡ false
    → delete_entry k (e ∷ t) ≡ e ∷ delete_entry k t
unfolding delete_entry
delete_cons_ne k e t h = rw h refl

-- Sorting and deleting a row may change places.
pub delete-order :
    (k : Text) (t : Table)
    → Unique t
    → delete_entry k (order_by_access t) ≡ order_by_access (delete_entry k t)
unfolding order_by_access
delete-order k [] u = unfold delete_entry in refl
delete-order k (e ∷ t) (f, u) = elim (Bool-cases (text_eq e.content_id k)) [
  | inl same ↦
      let here : e.content_id ≡ k = (text_eq_iff e.content_id k).0 same in
      let gone : delete_entry k t ≡ t = delete_absent k t (rw here at f) in
      let kept : delete_entry k (insert_by_access e (order_by_access t)) ≡ order_by_access t =
        rw (← here) (delete-insert_self e (order_by_access t) (All-order _ t f)) in
      kept ∙ ap order_by_access (sym (delete_cons k e t same ∙ gone))
  | inr other ↦
      delete-insert_ne k e (order_by_access t) other (order_by_access-Sorted t)
      ∙ ap (insert_by_access e) (delete-order k t u)
      ∙ ap order_by_access (sym (delete_cons_ne k e t other))
]
