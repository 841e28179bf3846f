-- ===== src/Keys/Laws.antt =====
-- When an audit posts.
use az_lab.Keys.{text_le, same_key, report, insert, sorted, distinct}
use az_lab.Prelude.{
  String, ◌≡◌, ◌≢◌, refl, sym, subst, ap₂, ◌↔◌, inl, inr, true, false, Option, none, List, [], ◌∷◌,
  ◌==◌, Bool-cases, eq_iff, arith, Among, elem,
}

same_key_refl : (k : List String) → same_key k k ≡ true
unfolding same_key
same_key_refl [] = refl
same_key_refl (x ∷ k) = rw ((eq_iff x x).1 refl) (same_key_refl k)

same_key→≡ : (k l : List String) → same_key k l ≡ true → k ≡ l
unfolding same_key
same_key→≡ [] [] e = refl
same_key→≡ [] (y ∷ l) e = ground arith
same_key→≡ (x ∷ k) [] e = ground arith
same_key→≡ (x ∷ k) (y ∷ l) e = elim (Bool-cases (x == y)) [
  | inl same ↦ ap₂ (λ a b. a ∷ b) ((eq_iff x y).0 same) (same_key→≡ k l (ground arith))
  | inr other ↦ ground arith
]

differs : (k l : List String) → same_key k l ≡ false → k ≢ l
differs k l e same =
    let equal : same_key k l ≡ true = subst (λ u. same_key k u ≡ true) same (same_key_refl k) in cc

-- The key of the last audit is what is kept.
pub report-key :
    (key prev : List String) (message : Option String) → (report key message prev).key ≡ key
unfolding report
report-key key prev message = elim (Bool-cases (same_key key prev)) [
  | inl same ↦ rw same (sym (same_key→≡ key prev same))
  | inr other ↦ rw other refl
]

-- Where a changed key always has a message, nothing is posted exactly if the key is the one before.
pub report_changes :
    (key prev : List String) (message : Option String)
    → (message ≡ none → key ≡ prev)
    → (report key message prev).posted ≡ none ↔ key ≡ prev
unfolding report
report_changes key prev message told = elim (Bool-cases (same_key key prev)) [
  | inl same ↦ let e = same_key→≡ key prev same in rw same ((λ p. e), (λ q. refl))
  | inr other ↦ rw other ((λ p. told p), (λ q. elim (differs key prev other q) [ ]))
]

Among-insert : (a x : String) (ys : List String) → Among a (x ∷ ys) → Among a (insert x ys)
unfolding insert
Among-insert a x [] m = m
Among-insert a x (y ∷ ys) m = elim (Bool-cases (text_le x y)) [
  | inl first ↦ rw first m
  | inr later ↦ rw later (elim m [
    | inl same ↦ inr (Among-insert a x ys (inl same))
    | inr (inl here) ↦ inl here
    | inr (inr there) ↦ inr (Among-insert a x ys (inr there))
  ])
]

-- Sorting keeps the members, and so does the set of a list.
pub Among-sorted : (a : String) (xs : List String) → Among a xs → Among a (sorted xs)
unfolding sorted
Among-sorted a [] m = m
Among-sorted a (x ∷ xs) (inl same) = Among-insert a x (sorted xs) (inl same)
Among-sorted a (x ∷ xs) (inr later) = Among-insert a x (sorted xs) (inr (Among-sorted a xs later))

pub elem→Among : (a : String) (xs : List String) → elem a xs ≡ true → Among a xs
elem→Among a [] e = ground arith
elem→Among a (x ∷ xs) e = elim (Bool-cases (a == x)) [
  | inl same ↦ inl ((eq_iff a x).0 same)
  | inr other ↦ inr (elem→Among a xs (ground arith))
]

pub Among-distinct : (a : String) (xs : List String) → Among a xs → Among a (distinct xs)
unfolding distinct
Among-distinct a [] m = m
Among-distinct a (x ∷ xs) m = elim (Bool-cases (elem x (distinct xs))) [
  | inl known ↦ rw known (elim m [
    | inl same ↦ rw same (elem→Among x (distinct xs) known)
    | inr later ↦ Among-distinct a xs later
  ])
  | inr new ↦ rw new (elim m [ inl same ↦ inl same | inr later ↦ inr (Among-distinct a xs later) ])
]
