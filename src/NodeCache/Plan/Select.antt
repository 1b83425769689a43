-- ===== src/NodeCache/Plan/Select.antt =====
-- Sorting and filtering the entries of the cache keeps and loses none.
use ai_models.Prelude.{◌≡◌, ◌⊎◌, inl, inr, Bool, List, [], ◌∷◌, arith, In}
use ai_models.NodeCache.Plan.{Entry, insert_sorted, sort_slice}

pub insert_sorted-In :
    (less : Entry → Entry → Bool) (e f : Entry) (es : List Entry)
    → (e ≡ f) ⊎ In e es
    → In e (insert_sorted less f es)
unfolding insert_sorted
insert_sorted-In less e f [] m = m
insert_sorted-In less e f (g ∷ es) m = ground (arith, insert_sorted-In less e f es)

pub In-insert_sorted :
    (less : Entry → Entry → Bool) (e f : Entry) (es : List Entry)
    → In e (insert_sorted less f es)
    → (e ≡ f) ⊎ In e es
unfolding insert_sorted
In-insert_sorted less e f [] m = m
In-insert_sorted less e f (g ∷ es) m = ground (arith, In-insert_sorted less e f es)

pub sort_slice-In :
    (less : Entry → Entry → Bool) (e : Entry) (es : List Entry)
    → In e es
    → In e (sort_slice less es)
unfolding sort_slice
sort_slice-In less e [] m = m
sort_slice-In less e (f ∷ es) m =
    insert_sorted-In less e f (sort_slice less es)
      (elim m [ inl p ↦ inl p | inr q ↦ inr (sort_slice-In less e es q) ])

pub In-sort_slice :
    (less : Entry → Entry → Bool) (e : Entry) (es : List Entry)
    → In e (sort_slice less es)
    → In e es
unfolding sort_slice
In-sort_slice less e [] m = m
In-sort_slice less e (f ∷ es) m = elim (In-insert_sorted less e f (sort_slice less es) m) [
  | inl p ↦ inl p
  | inr q ↦ inr (In-sort_slice less e es q)
]
