-- ===== src/Skills/Matching.antt =====
-- Which skill the matcher picks.
use az_lab.Skills.{Skill, match_min_score, skill_score, best_skill, best_match}
use az_lab.Prelude.{
  ℕ, ◌≤◌, String, ◌≡◌, refl, sym, ◌⊎◌, inl, inr, Bool, true, false, Option, none, some, List, [],
  ◌∷◌, arith, ltb, leb, if◌then◌else◌, ltb→lt, ltb→le, All,
}

pub data Listed (hs name : String) (n : ℕ) : List Skill → Type 0 where
  first :
      (triggers : List String) {rest : List Skill}
      → skill_score hs triggers ≡ n
      → Listed hs name n ((name, triggers) ∷ rest)
  later : (s : Skill) {rest : List Skill} → Listed hs name n rest → Listed hs name n (s ∷ rest)

-- The score of the scan is what it started with or the score of the skill that it names.
Scanned : String → List Skill → Option String → ℕ → Option String × ℕ → Type 0
Scanned hs skills best score (b, n) =
    (score ≤ n)
    × All (λ (s : Skill). skill_score hs s.1 ≤ n) skills
    × (((b ≡ best) × (n ≡ score)) ⊎ ((name : String) × (b ≡ some name) × Listed hs name n skills))

step-Scanned :
    (hs name : String) (triggers : List String) (rest : List Skill) (best : Option String)
    (score : ℕ) (r : Option String × ℕ) (b : Bool)
    → ltb score (skill_score hs triggers) ≡ b
    → Scanned hs rest
        (if b then some name else best)
        (if b then skill_score hs triggers else score)
        r
    → Scanned hs ((name, triggers) ∷ rest) best score r
unfolding Scanned
step-Scanned hs name triggers rest best score (o, n) true e (up, all, from) =
    let lt = ltb→lt score (skill_score hs triggers) e in
    (
      omega (arith, up, lt),
      (up, all),
      elim from [
        | inl (named, same) ↦ inr (name, named, first triggers (sym same))
        | inr (name', named, listed) ↦ inr (name', named, later (name, triggers) listed)
      ],
    )
step-Scanned hs name triggers rest best score (o, n) false e (up, all, from) =
    let le = ltb→le score (skill_score hs triggers) e in
    (
      up,
      (omega (arith, up, le), all),
      elim from [
        | inl kept ↦ inl kept
        | inr (name', named, listed) ↦ inr (name', named, later (name, triggers) listed)
      ],
    )

best_skill-Scanned :
    (hs : String) (skills : List Skill) (best : Option String) (score : ℕ)
    → Scanned hs skills best score (best_skill hs skills best score)
unfolding best_skill Scanned
best_skill-Scanned hs [] best score = (omega arith, tt, inl (refl, refl))
best_skill-Scanned hs ((name, triggers) ∷ rest) best score =
    let new = skill_score hs triggers in
    let b = ltb score new in
    step-Scanned hs name triggers rest best score _ b refl
      (best_skill-Scanned hs rest (if b then some name else best) (if b then new else score))

matched :
    (hs : String) (skills : List Skill) (name : String) (r : Option String × ℕ)
    → Scanned hs skills none 0 r
    → (if leb match_min_score r.1 then r.0 else none) ≡ some name
    → (n : ℕ) × Listed hs name n skills
      × (match_min_score ≤ n)
      × All (λ (s : Skill). skill_score hs s.1 ≤ n) skills
unfolding Scanned
matched hs skills name (o, n) (up, all, inl (same, zero_score)) e = ground arith
matched hs skills name (o, n) (up, all, inr (found, named, listed)) e =
    let q : found ≡ name = ground arith in (n, rw q at listed, ground arith, all)

-- The skill that the matcher names is a listed one, its score reaches the minimum, and no listed
-- skill scores higher.
pub best_match_best :
    (hs : String) (skills : List Skill) (name : String)
    → best_match hs skills ≡ some name
    → (n : ℕ) × Listed hs name n skills
      × (match_min_score ≤ n)
      × All (λ (s : Skill). skill_score hs s.1 ≤ n) skills
unfolding best_match Scanned
best_match_best hs skills name e =
    matched hs skills name (best_skill hs skills none 0) (best_skill-Scanned hs skills none 0) e
