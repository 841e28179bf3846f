-- ===== src/Units/Laws.antt =====
-- What the comparison of one file shows.
use az_lab.Units.{
  FilePath, Machine, repo, Kind, drift, ambiguous, Finding, within, candidates, safe_sha,
  finding_of, compare_sha, check_real, check,
}
use az_lab.Prelude.{
  String, ◌≡◌, ◌≢◌, ◌↔◌, refl, ap, subst, inl, inr, Bool, true, false, Option, none, some, List, [],
  ◌∷◌, ◌==◌, is_empty, or_else, any, length, All, Bool-cases, eq_iff, arith,
}

-- A file outside the repository with candidates in it, none of which has its contents.
pub record IsStale (m : Machine) (t : FilePath) (sources : List FilePath) (f : Finding)
    : Type 0 where
  pub real : FilePath
  pub resolved : m.resolve t ≡ some real
  pub outside : within (repo m) real ≡ false
  pub mine : String
  pub digest : m.sha real ≡ some mine
  pub some_source : is_empty sources ≡ false
  pub differ : All (λ c. safe_sha m c ≢ mine) sources
  pub one_source : f.kind ≡ drift ↔ length sources ≡ 1

none_equal :
    (m : Machine) (mine : String) (cs : List FilePath)
    → any (λ c. safe_sha m c == mine) cs ≡ false
    → All (λ c. safe_sha m c ≢ mine) cs
none_equal m mine [] e = tt
none_equal m mine (c ∷ cs) e = elim (Bool-cases (safe_sha m c == mine)) [
  | inl same ↦ ground arith
  | inr other ↦ (
    (λ p. let q : (safe_sha m c == mine) ≡ true = (eq_iff _ _).1 p in cc),
    none_equal m mine cs (ground arith),
  )
]

abbrev is_drift : Kind → Bool
is_drift drift = true
is_drift ambiguous = false

ambiguous_not_drift : ambiguous ≢ drift
ambiguous_not_drift p = let e : false ≡ true = ap is_drift p in ground arith

kind-one :
    (m : Machine) (t : FilePath) (cs : List FilePath)
    → is_empty cs ≡ false
    → (finding_of m t cs).kind ≡ drift ↔ length cs ≡ 1
unfolding finding_of
kind-one m t [] e = ground arith
kind-one m t (c ∷ []) e = ((λ p. refl), (λ p. refl))
kind-one m t (c ∷ d ∷ cs) e =
    ((λ p. elim (ambiguous_not_drift p) [ ]), (λ p. let no : ⊥ = omega (arith, p) in elim no [ ]))

compare-IsStale :
    (m : Machine) (t real : FilePath) (cs : List FilePath) (o : Option String) (f : Finding)
    → m.resolve t ≡ some real
    → within (repo m) real ≡ false
    → is_empty cs ≡ false
    → m.sha real ≡ o
    → compare_sha m t cs o ≡ some f
    → IsStale m t cs f
unfolding compare_sha
compare-IsStale m t real cs none f r w n d e = ground arith
compare-IsStale m t real cs (some mine) f r w n d e =
    elim (Bool-cases (any (λ c. safe_sha m c == mine) cs)) [
      | inl same ↦ ground (arith, rw same at e)
      | inr differ ↦ record {
        real = real;
        resolved = r;
        outside = w;
        mine = mine;
        digest = d;
        some_source = n;
        differ = none_equal m mine cs differ;
        one_source =
            let same : finding_of m t cs ≡ f = ap (λ g. or_else g f) (rw differ at e) in
            subst (λ (g : Finding). g.kind ≡ drift ↔ length cs ≡ 1) same (kind-one m t cs n);
      }
    ]

real-IsStale :
    (m : Machine) (t : FilePath) (cs : List FilePath) (o : Option FilePath) (f : Finding)
    → m.resolve t ≡ o
    → check_real m t cs o ≡ some f
    → IsStale m t cs f
unfolding check_real
real-IsStale m t cs none f r e = ground arith
real-IsStale m t cs (some real) f r e = elim (Bool-cases (within (repo m) real)) [
  | inl within_repo ↦ ground (arith, rw within_repo at e)
  | inr outside ↦ elim (Bool-cases (is_empty cs)) [
    | inl empty ↦ ground (arith, rw empty at (rw outside at e))
    | inr some_source ↦
        compare-IsStale m t real cs (m.sha real) f r outside some_source refl
          (rw some_source at (rw outside at e))
  ]
]

-- A finding is about a file that resolves to one outside the repository, whose contents could be
-- read and are those of none of its candidates in the repository, of which there is at least one;
-- the finding is a drift exactly if there is one candidate.
pub check-IsStale :
    (m : Machine) (t : FilePath) (idx : List FilePath) (f : Finding)
    → check m t idx ≡ some f
    → IsStale m t (candidates m t idx) f
unfolding check
check-IsStale m t idx f e = real-IsStale m t (candidates m t idx) (m.resolve t) f refl e
