-- ===== src/Sage/Judgement/Scores.antt =====
-- The score of a task's complexity.
use az_lab.Text
use az_lab.Event.{Result, ok}
use az_lab.Recurring.{priority_of}
use az_lab.Routing.{compared, lower_tags}
use az_lab.Sage.Judgement.{
  score_complexity_local, complex_word_count, split_word_count, is_zero, split_or_complex,
}
use az_lab.Queue.{Task, text}
use az_lab.Prelude.{
  ℕ, zero, suc, ltb, lt→ltb, subst, ◌≤◌, ◌<◌, String, ◌≡◌, refl, inl, inr, Bool, true, false, ◌||◌,
  Option, none, some, arith, leb, length, elem, Bool-cases,
}

-- The words of a description.
abbrev pub word_count : Task → ℕ
word_count t = length (Text.words (text t.description))

-- What a score says of a task.
pub data IsScore (t : Task) : String → Type 0 where
  simple : word_count t < complex_word_count → IsScore t "simple"
  complex : IsScore t "complex"
  split :
      (n : ℕ)
      → priority_of t.priority ≡ some (suc n)
      → split_word_count ≤ word_count t
      → IsScore t "split"

ok-same : {a b : String} → Result.ok a ≡ Result.ok b → a ≡ b
ok-same e = cc

split-IsScore :
    (t : Task) (p : Option ℕ) (s : String)
    → priority_of t.priority ≡ p
    → split_word_count ≤ word_count t
    → split_or_complex (compared (λ n. ltb 0 n) p) ≡ ok s
    → IsScore t s
unfolding compared
split-IsScore t none s ep n e = cc
split-IsScore t (some zero) s ep n e = let q : "complex" ≡ s = cc in subst (IsScore t) q complex
split-IsScore t (some (suc k)) s ep n e =
    let big : ltb 0 (suc k) ≡ true = lt→ltb 0 (suc k) (omega arith) in
    let q : "split" ≡ s = ok-same (rw big at e) in subst (IsScore t) q (split k ep n)

leb→le : (a b : ℕ) → leb a b ≡ true → a ≤ b
leb→le a b e = ground arith

few : (b d : Bool) (n : ℕ) → (b || (d || leb complex_word_count n)) ≡ false → n < complex_word_count
few b d n e = ground arith

-- Only a long description of a task that is not of the highest priority is scored for splitting, and
-- only a short one as simple.
pub score_complexity_local-IsScore :
    (t : Task) (s : String) → score_complexity_local t ≡ ok s → IsScore t s
unfolding score_complexity_local
score_complexity_local-IsScore t s e =
    elim (Bool-cases (
      is_zero (priority_of t.priority)
      || (elem "complex" (lower_tags t) || leb complex_word_count (word_count t)))) [
        | inl large ↦ (elim (Bool-cases (leb split_word_count (word_count t))) [
          | inl long ↦
              split-IsScore t (priority_of t.priority) s refl (leb→le _ _ long)
                (rw long at (rw large at e))
          | inr short ↦ subst (IsScore t) (ok-same (rw short at (rw large at e))) complex
        ])
        | inr small ↦ subst (IsScore t) (ok-same (rw small at e)) (simple (few _ _ _ small))
      ]
