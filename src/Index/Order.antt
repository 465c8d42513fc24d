-- ===== src/Index/Order.antt =====
-- `eviction_candidates`: the rows that may go, the least recently used first.
use mathlib.Core.Path.{subst}
use zeno_plugin.Prelude.{
  ℕ, zero, suc, ◌≤◌, ◌≡◌, refl, sym, ap, ◌∙◌, Bool, true, false, some, List, [], ◌∷◌, arith, leb,
  select, take, inl, inr, Bool-cases,
}
use zeno_plugin.Prelude.Text.{Text, text_eq, text_eq_iff}
use zeno_plugin.Index.{
  CacheEntry, Table, delete_entry, get_entry, insert_by_access, order_by_access, not_in,
  eviction_candidates,
}
use zeno_plugin.Index.Rows.{All, Free, Unique, delete_entry-Unique}
use zeno_plugin.Index.Sorting.{
  All-select, select-Unique, select-select, All-order, Free_sym, order-Unique, delete_absent,
  Sorted, order_by_access-Sorted, delete_cons, delete-order,
}

-- `x` was used no later than any row that `p` lets go.
abbrev pub Least : (CacheEntry → Bool) → CacheEntry → Table → Type 0
Least p x = All (λ e. p e ≡ true → x.last_accessed_at ≤ e.last_accessed_at)

-- Rows that are each the least recently used at their turn, when the ones before are gone.
abbrev pub Front : (CacheEntry → Bool) → Table → Table → Type 0
Front p [] t = Unit
Front p (x ∷ xs) t =
    Least p x t
    × (get_entry x.content_id t ≡ some x)
    × (p x ≡ true)
    × Front p xs (delete_entry x.content_id t)

All-of_insert :
    (P : CacheEntry → Type 0) (e : CacheEntry) (t : Table)
    → All P (insert_by_access e t)
    → P e × All P t
unfolding insert_by_access
All-of_insert P e [] (p, a) = (p, tt)
All-of_insert P e (x ∷ t) a = elim (Bool-cases (leb e.last_accessed_at x.last_accessed_at)) [
  | inl first ↦ rw first at a
  | inr later ↦ let (q, r) = rw later at a in let (p, a') = All-of_insert P e t r in (p, (q, a'))
]

Least-order :
    (p : CacheEntry → Bool) (x : CacheEntry) (t : Table)
    → All (λ e. x.last_accessed_at ≤ e.last_accessed_at) (order_by_access (select p t))
    → Least p x t
unfolding order_by_access
Least-order p x [] a = tt
Least-order p x (e ∷ t) a = elim (Bool-cases (p e)) [
  | inl keep ↦
      let (q, r) = All-of_insert _ e (order_by_access (select p t)) (rw keep at a) in
      ((λ _. q), Least-order p x t r)
  | inr skip ↦ ((λ h. absurd (cc)), Least-order p x t (rw skip at a))
]

get_cons-Free :
    (x : CacheEntry) (t s : Table)
    → Free x.content_id s
    → All (λ e. get_entry e.content_id t ≡ some e) s
    → All (λ e. get_entry e.content_id (x ∷ t) ≡ some e) s
unfolding get_entry
get_cons-Free x t [] f a = tt
get_cons-Free x t (e ∷ s) (g, f) (h, a) = (rw (Free_sym x e g) h, get_cons-Free x t s f a)

get_of_Unique : (t : Table) → Unique t → All (λ e. get_entry e.content_id t ≡ some e) t
get_of_Unique [] u = tt
get_of_Unique (x ∷ t) (f, u) = (found, get_cons-Free x t t f (get_of_Unique t u))
  where
    found : get_entry x.content_id (x ∷ t) ≡ some x
    found = unfold get_entry in rw ((text_eq_iff x.content_id x.content_id).1 refl) refl

select-true : (p : CacheEntry → Bool) (t : Table) → All (λ e. p e ≡ true) (select p t)
select-true p [] = tt
select-true p (e ∷ t) = elim (Bool-cases (p e)) [
  | inl keep ↦ rw keep (keep, select-true p t)
  | inr skip ↦ rw skip (select-true p t)
]

delete-select :
    (k : Text) (p : CacheEntry → Bool) (t : Table)
    → delete_entry k (select p t) ≡ select p (delete_entry k t)
unfolding delete_entry
delete-select k p t = select-select _ p t

front :
    (p : CacheEntry → Bool) (n : ℕ) (t s : Table)
    → Unique t
    → s ≡ order_by_access (select p t)
    → Front p (take n s) t
front p zero t s u e = tt
front p (suc n) t [] u e = tt
front p (suc n) t (x ∷ s) u e =
    let sorted : Sorted (x ∷ s) = subst Sorted (sym e) (order_by_access-Sorted (select p t)) in
    let unique : Unique (x ∷ s) =
      subst Unique (sym e) (order-Unique (select p t) (select-Unique p t u)) in
    let all_least : All (λ y. x.last_accessed_at ≤ y.last_accessed_at) (x ∷ s) =
      (omega arith, sorted.0) in
    let found : All (λ y. get_entry y.content_id t ≡ some y) (x ∷ s) =
      subst (All (λ y. get_entry y.content_id t ≡ some y)) (sym e)
        (All-order _ (select p t) (All-select _ p t (get_of_Unique t u))) in
    let allowed : All (λ y. p y ≡ true) (x ∷ s) =
      subst (All (λ y. p y ≡ true)) (sym e) (All-order _ (select p t) (select-true p t)) in
    let same : text_eq x.content_id x.content_id ≡ true = (text_eq_iff _ _).1 refl in
    let next : s ≡ order_by_access (select p (delete_entry x.content_id t)) =
      sym (delete_cons x.content_id x s same ∙ delete_absent x.content_id s unique.0)
      ∙ ap (delete_entry x.content_id) e
      ∙ delete-order x.content_id (select p t) (select-Unique p t u)
      ∙ ap order_by_access (delete-select x.content_id p t) in
    (
      Least-order p x t (subst (All (λ y. x.last_accessed_at ≤ y.last_accessed_at)) e all_least),
      found.0,
      allowed.0,
      front p n (delete_entry x.content_id t) s (delete_entry-Unique x.content_id t u) next,
    )

-- The candidates are rows of the table that may go, and each of them was used no later than any
-- other row that may go, once the candidates before it are deleted.
pub eviction_candidates-Front :
    (exclude : List Text) (limit : ℕ) (t : Table)
    → Unique t
    → Front (not_in exclude) (eviction_candidates exclude limit t) t
unfolding eviction_candidates
eviction_candidates-Front exclude limit t u = front (not_in exclude) limit t _ u refl

take_insert_ne : (e : CacheEntry) (n : ℕ) (t : Table) → ¬ (take (suc n) (insert_by_access e t) ≡ [])
unfolding insert_by_access
take_insert_ne e n [] h = cc
take_insert_ne e n (x ∷ t) h = ground arith

-- With room for one candidate, there is none only if every row is excluded.
pub no_candidates :
    (exclude : List Text) (limit : ℕ) (t : Table)
    → eviction_candidates exclude (suc limit) t ≡ []
    → All (λ e. not_in exclude e ≡ false) t
unfolding eviction_candidates order_by_access
no_candidates exclude limit [] h = tt
no_candidates exclude limit (e ∷ t) h = elim (Bool-cases (not_in exclude e)) [
  | inl may_go ↦ absurd (take_insert_ne e limit _ (rw may_go at h))
  | inr held ↦ (held, no_candidates exclude limit t (rw held at h))
]
