-- ===== src/Units/Audit/Laws.antt =====
-- The audit misses no file that a unit names.
use az_lab.Units.{
  FilePath, Machine, Finding, name_of, same_path, has_suffix, exec_paths, repo_index, check,
}
use az_lab.Units.Audit.{Located, is_unit, targets_of, located, scan_targets, scan_units, audit}
use az_lab.Prelude.{
  String, ◌≡◌, refl, sym, subst, ap₂, ◌⊎◌, inl, inr, true, some, List, [], ◌∷◌, ◌++◌, keep, any,
  Among, Bool-cases, eq_iff, ◌==◌, arith,
}

-- The finding is one of those that the audit located.
pub data Reports (f : Finding) : List Located → Type 0 where
  here : (unit : String) {fs : List Located} → Reports f (record { finding = f; unit = unit } ∷ fs)
  there : (l : Located) {fs : List Located} → Reports f fs → Reports f (l ∷ fs)

Reports-left :
    {f : Finding} {fs : List Located} (gs : List Located) → Reports f fs → Reports f (fs ++ gs)
Reports-left gs (here unit) = here unit
Reports-left gs (there l r) = there l (Reports-left gs r)

Reports-right :
    {f : Finding} (fs : List Located) {gs : List Located} → Reports f gs → Reports f (fs ++ gs)
Reports-right [] r = r
Reports-right (l ∷ fs) r = there l (Reports-right fs r)

same_path_refl : (p : FilePath) → same_path p p ≡ true
unfolding same_path
same_path_refl [] = refl
same_path_refl (x ∷ p) = rw ((eq_iff x x).1 refl) (same_path_refl p)

same_path→≡ : (p q : FilePath) → same_path p q ≡ true → p ≡ q
unfolding same_path
same_path→≡ [] [] e = refl
same_path→≡ [] (y ∷ q) e = ground arith
same_path→≡ (x ∷ p) [] e = ground arith
same_path→≡ (x ∷ p) (y ∷ q) e = elim (Bool-cases (x == y)) [
  | inl same ↦ ap₂ (λ a b. a ∷ b) ((eq_iff x y).0 same) (same_path→≡ p q (ground arith))
  | inr other ↦ ground arith
]

abbrev Seen : FilePath → List FilePath → Type 0
Seen t seen = any (same_path t) seen ≡ true

Seen-later : (t x : FilePath) (seen : List FilePath) → Seen t seen → Seen t (x ∷ seen)
Seen-later t x seen s = ground arith

Seen-first : (t : FilePath) (seen : List FilePath) → Seen t (t ∷ seen)
Seen-first t seen = rw (same_path_refl t) refl

Seen-cases : (t x : FilePath) (seen : List FilePath) → Seen t (x ∷ seen) → Seen t seen ⊎ (t ≡ x)
Seen-cases t x seen s = elim (Bool-cases (same_path t x)) [
  | inl same ↦ inr (same_path→≡ t x same)
  | inr other ↦ inl (ground arith)
]

module _ (m : Machine) (idx : List FilePath) (unit : String) where
  scan-keeps :
      (t : FilePath) (ts seen : List FilePath)
      → Seen t seen
      → Seen t ((scan_targets m idx unit ts seen).0)
  unfolding scan_targets
  scan-keeps t [] seen s = s
  scan-keeps t (x ∷ ts) seen s = elim (Bool-cases (any (same_path x) seen)) [
    | inl known ↦ rw known (scan-keeps t ts seen s)
    | inr new ↦ rw new (scan-keeps t ts (x ∷ seen) (Seen-later t x seen s))
  ]

  scan-sees :
      (t : FilePath) (ts seen : List FilePath)
      → Among t ts
      → Seen t ((scan_targets m idx unit ts seen).0)
  unfolding scan_targets
  scan-sees t [] seen none_left = elim none_left [ ]
  scan-sees t (x ∷ ts) seen (inl same) = elim (Bool-cases (any (same_path x) seen)) [
    | inl known ↦ rw known (scan-keeps t ts seen (subst (λ u. Seen u seen) (sym same) known))
    | inr new ↦
        rw new
          (scan-keeps t ts (x ∷ seen) (subst (λ u. Seen t (u ∷ seen)) same (Seen-first t seen)))
  ]
  scan-sees t (x ∷ ts) seen (inr later) = elim (Bool-cases (any (same_path x) seen)) [
    | inl known ↦ rw known (scan-sees t ts seen later)
    | inr new ↦ rw new (scan-sees t ts (x ∷ seen) later)
  ]

  -- What has been seen after a scan and reports a finding was seen before or has been located.
  scan-reports :
      (t : FilePath) (f : Finding) (ts seen : List FilePath)
      → check m t idx ≡ some f
      → Seen t ((scan_targets m idx unit ts seen).0)
      → Seen t seen ⊎ Reports f ((scan_targets m idx unit ts seen).1)
  unfolding scan_targets
  scan-reports t f [] seen c s = inl s
  scan-reports t f (x ∷ ts) seen c s = elim (Bool-cases (any (same_path x) seen)) [
    | inl known ↦ rw known (scan-reports t f ts seen c (rw known at s))
    | inr new ↦ rw new (elim (scan-reports t f ts (x ∷ seen) c (rw new at s)) [
      | inr found ↦ inr (Reports-right (located unit (check m x idx)) found)
      | inl before ↦ elim (Seen-cases t x seen before) [
        | inl earlier ↦ inl earlier
        | inr same ↦ inr (
            Reports-left _
              (subst (λ u. Reports f (located unit (check m u idx))) same (rw c (here unit))))
      ]
    ])
  ]

module _ (m : Machine) (idx : List FilePath) (t : FilePath) (f : Finding)
    (c : check m t idx ≡ some f) where
  units-report :
      (u : FilePath) (us seen : List FilePath)
      → Among u us
      → Among t (targets_of m u)
      → Seen t seen ⊎ Reports f (scan_units m idx us seen)
  unfolding scan_units
  units-report u [] seen none_left a = elim none_left [ ]
  units-report u (v ∷ us) seen (inl same) a =
      let a' : Among t (targets_of m v) = subst (λ w. Among t (targets_of m w)) same a in
      elim (scan-reports m idx (name_of v) t f (targets_of m v) seen c
        (scan-sees m idx (name_of v) t (targets_of m v) seen a')) [
          | inl before ↦ inl before
          | inr found ↦ inr (Reports-left _ found)
        ]
  units-report u (v ∷ us) seen (inr later) a =
      let (seen', found) = scan_targets m idx (name_of v) (targets_of m v) seen in
      elim (units-report u us seen' later a) [
        | inr further ↦ inr (Reports-right found further)
        | inl seen_here ↦
            elim (scan-reports m idx (name_of v) t f (targets_of m v) seen c seen_here) [
              | inl before ↦ inl before
              | inr here_found ↦ inr (Reports-left _ here_found)
            ]
      ]

-- The file is the unit's own, or one that the ExecStart lines of a service name.
abbrev pub IsNamed : Machine → FilePath → FilePath → Type 0
IsNamed m u t = (t ≡ u) ⊎ (has_suffix ".service" u ≡ true) × Among t (exec_paths m (name_of u))

named : (m : Machine) (u t : FilePath) → IsNamed m u t → Among t (targets_of m u)
unfolding targets_of
named m u t (inl same) = inl same
named m u t (inr (service, a)) = inr (rw service a)

-- A file that is a unit's own, or that a service names, and whose check against the repository gives
-- a finding, is reported with that finding by the audit, also where several units name it.
pub audit-Reports :
    (m : Machine) (u t : FilePath) (f : Finding)
    → Among u (keep (is_unit m) m.unit_files)
    → IsNamed m u t
    → check m t (repo_index m) ≡ some f
    → Reports f (audit m)
unfolding audit
audit-Reports m u t f a b c =
    elim (units-report m (repo_index m) t f c u (keep (is_unit m) m.unit_files) [] a
      (named m u t b)) [ inl seen ↦ ground arith | inr found ↦ found ]
