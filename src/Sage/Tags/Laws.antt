-- ===== src/Sage/Tags/Laws.antt =====
-- Adding tags: nothing is lost, everything asked for is there, and doing it again changes nothing.
use az_lab.Sage.Tags.{add_tag, add_each, add_tags}
use az_lab.Prelude.{
  String, ◌≡◌, refl, inl, inr, true, ◌||◌, Option, some, List, [], ◌∷◌, ◌++◌, arith, ◌==◌, eq_iff,
  Bool-cases, or_else, elem,
}

elem-append : (a t : String) (xs : List String) → elem a (xs ++ (t ∷ [])) ≡ (elem a xs || a == t)
elem-append a t [] = ground arith
elem-append a t (x ∷ xs) = ground (arith, elem-append a t xs)

elem-add_tag : (a t : String) (xs : List String) → elem a (add_tag t xs) ≡ (elem a xs || a == t)
elem-add_tag a t xs = elim (Bool-cases (elem t xs)) [
  | inl old ↦ rw old (elim (Bool-cases (a == t)) [
    | inl same ↦ ground (arith, eq_iff a t)
    | inr other ↦ ground arith
  ])
  | inr new ↦ rw new (elem-append a t xs)
]

elem-add_each :
    (a : String) (xs ts : List String) → elem a (add_each xs ts) ≡ (elem a xs || elem a ts)
unfolding add_each
elem-add_each a xs [] = ground arith
elem-add_each a xs (t ∷ ts) = ground (arith, elem-add_each a (add_tag t xs) ts, elem-add_tag a t xs)

-- A text is a tag afterwards exactly if it was one before or is one of the new ones.
pub elem-add_tags :
    (existing : Option (List String)) (new : List String) (a : String)
    → elem a (add_tags existing new) ≡ (elem a (or_else existing []) || elem a new)
unfolding add_tags
elem-add_tags existing new a = elem-add_each a (or_else existing []) new

add_tag_old : (t : String) (xs : List String) → elem t xs ≡ true → add_tag t xs ≡ xs
add_tag_old t xs e = rw e

add_each_old :
    (xs ts : List String)
    → ((a : String) → elem a ts ≡ true → elem a xs ≡ true)
    → add_each xs ts ≡ xs
unfolding add_each
add_each_old xs [] all = refl
add_each_old xs (t ∷ ts) all =
    rw (add_tag_old t xs (all t (ground (arith, eq_iff t t))))
      (add_each_old xs ts (λ a e. all a (ground arith)))

-- Tagging a second time with the same tags changes nothing.
pub add_tags_idempotent :
    (existing : Option (List String)) (new : List String)
    → add_tags (some (add_tags existing new)) new ≡ add_tags existing new
unfolding add_tags
add_tags_idempotent existing new =
    add_each_old (add_tags existing new) new (λ a e. ground (arith, elem-add_tags existing new a))
