-- ===== src/Backlog/Laws.antt =====
-- Which milestone is promoted, and which tasks the backlog makes.
use az_lab.Backlog.{has_status, first_goal, to_promote}
use az_lab.Queue.{Goal, text}
use az_lab.Prelude.{
  String, ◌≡◌, sym, inl, inr, Bool, true, false, some, List, [], ◌∷◌, arith, ◌==◌, eq_iff,
  Bool-cases, keep, any, All, Among,
}

any-none : {A : Type 0} (p : A → Bool) (xs : List A) → any p xs ≡ false → All (λ x. p x ≡ false) xs
any-none p [] e = tt
any-none p (x ∷ xs) e = (ground arith, any-none p xs (ground arith))

first_kept :
    (s : String) (ms : List Goal) (m : Goal)
    → first_goal (keep (has_status s) ms) ≡ some m
    → Among m ms × (has_status s m ≡ true)
unfolding first_goal
first_kept s [] m e = cc
first_kept s (g ∷ ms) m e = elim (Bool-cases (has_status s g)) [
  | inl fits ↦ let same : g ≡ m = ground arith in (inl (sym same), rw same at fits)
  | inr fails ↦ let (a, b) = first_kept s ms m (ground arith) in (inr a, b)
]

-- A milestone that is promoted is a planned one of the strategy, and no milestone of it is active.
to_promote_sound :
    (ms : List Goal) (m : Goal)
    → to_promote ms ≡ some m
    → Among m ms
      × (text m.status ≡ "planned")
      × All (λ (g : Goal). (text g.status == "active") ≡ false) ms
unfolding to_promote has_status
to_promote_sound ms m e = elim (Bool-cases (any (has_status "active") ms)) [
  | inl active ↦ ground arith
  | inr idle ↦
      let (a, b) = first_kept "planned" ms m (ground arith) in
      (a, (eq_iff (text m.status) "planned").0 b, any-none (has_status "active") ms idle)
]
