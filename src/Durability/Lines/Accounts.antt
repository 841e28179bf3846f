-- ===== src/Durability/Lines/Accounts.antt =====
-- What is decided on a line, and what is found.
use az_lab.Time.{Time}
use az_lab.Durability.{Finding, Host, Repo, dirty_max_age}
use az_lab.Durability.Migrations.{applied_migration_head, ledgered_migrations_under}
use az_lab.Durability.Targets.{Targets, Hit, is_execstart_target}
use az_lab.Durability.Lines.{
  Verdict, reported, Line, Judged, Decision, join, is_applied, judge_migration, judge_migrations,
  judge_targets, judge_age, judge, judge_at, judge_line, path_of,
}
use az_lab.Prelude.{
  ℕ, String, ◌≡◌, refl, inl, inr, Bool, true, false, Option, none, some, List, [], ◌∷◌, ◌++◌,
  length, ◌+◌, is_empty, Bool-cases, arith, leb, if◌then◌else◌,
}

abbrev is_reported : Verdict → Bool
is_reported reported = true
is_reported _ = false

-- How many decisions report what is found.
pub count_reported : List Decision → ℕ
count_reported [] = 0
count_reported (d ∷ ds) = (if is_reported d.verdict then 1 else 0) + count_reported ds

count-append :
    (ds es : List Decision) → count_reported (ds ++ es) ≡ count_reported ds + count_reported es
unfolding count_reported
count-append [] es = omega arith
count-append (d ∷ ds) es = omega (arith, count-append ds es)

length-append : (fs gs : List Finding) → length (fs ++ gs) ≡ length fs + length gs
length-append [] gs = omega arith
length-append (f ∷ fs) gs = omega (arith, length-append fs gs)

-- Each finding has a decision that reports it, and each such decision a finding.
IsAccounted : Judged → Type 0
IsAccounted j = count_reported j.decisions ≡ length j.findings

join-IsAccounted : (a b : Judged) → IsAccounted a → IsAccounted b → IsAccounted (join a b)
unfolding IsAccounted
join-IsAccounted a b p q =
    omega (arith, count-append a.decisions b.decisions, length-append a.findings b.findings)

migrations-IsAccounted :
    (h : Host) (r : Repo) (l : Line) (ms : List (String × ℕ))
    → IsAccounted (judge_migrations h r l ms)
unfolding judge_migrations judge_migration IsAccounted count_reported
migrations-IsAccounted h r l [] = refl
migrations-IsAccounted h r l ((path, seq) ∷ ms) =
    elim (Bool-cases (is_applied ((applied_migration_head h).0) seq)) [
      | inl applied ↦ rw applied (omega (arith, migrations-IsAccounted h r l ms))
      | inr not_yet ↦ rw not_yet (omega (arith, migrations-IsAccounted h r l ms))
    ]

targets-IsAccounted :
    (h : Host) (r : Repo) (l : Line) (ts : List Hit) → IsAccounted (judge_targets h r l ts)
unfolding judge_targets IsAccounted count_reported
targets-IsAccounted h r l [] = refl
targets-IsAccounted h r l (t ∷ ts) = omega (arith, targets-IsAccounted h r l ts)

age-IsAccounted : (h : Host) (r : Repo) (l : Line) → IsAccounted (judge_age h r l)
unfolding judge_age IsAccounted count_reported
age-IsAccounted h r l = elim (Bool-cases (leb l.since dirty_max_age)) [
  | inl young ↦ rw young refl
  | inr old ↦ rw old refl
]

judge-IsAccounted : (h : Host) (r : Repo) (ts : Targets) (l : Line) → IsAccounted (judge h r ts l)
unfolding judge
judge-IsAccounted h r ts l =
    let ms = judge_migrations h r l (ledgered_migrations_under r l.path) in
    let hs = judge_targets h r l (is_execstart_target r ts l.path) in
    let by_class =
      join-IsAccounted ms hs (migrations-IsAccounted h r l _) (targets-IsAccounted h r l _) in
    elim (Bool-cases (is_empty (ms.findings ++ hs.findings))) [
      | inl empty ↦ rw empty (join-IsAccounted (join ms hs) _ by_class (age-IsAccounted h r l))
      | inr found ↦ rw found by_class
    ]

is_empty-append : (ds es : List Decision) → is_empty es ≡ false → is_empty (ds ++ es) ≡ false
is_empty-append [] es e = e
is_empty-append (d ∷ ds) es e = refl

age_decides : (h : Host) (r : Repo) (l : Line) → is_empty (judge_age h r l).decisions ≡ false
unfolding judge_age
age_decides h r l = elim (Bool-cases (leb l.since dirty_max_age)) [
  | inl young ↦ rw young refl
  | inr old ↦ rw old refl
]

some_decision :
    (ds : List Decision) (fs : List Finding)
    → is_empty fs ≡ false
    → count_reported ds ≡ length fs
    → is_empty ds ≡ false
unfolding count_reported
some_decision [] [] e p = e
some_decision [] (f ∷ fs) e p = let no : ⊥ = omega (arith, p) in elim no [ ]
some_decision (d ∷ ds) fs e p = refl

-- A line that is judged leaves a decision.
judge_decides :
    (h : Host) (r : Repo) (ts : Targets) (l : Line) → is_empty (judge h r ts l).decisions ≡ false
unfolding judge IsAccounted
judge_decides h r ts l =
    let ms = judge_migrations h r l (ledgered_migrations_under r l.path) in
    let hs = judge_targets h r l (is_execstart_target r ts l.path) in
    elim (Bool-cases (is_empty (ms.findings ++ hs.findings))) [
      | inl empty ↦ rw empty (is_empty-append (ms.decisions ++ hs.decisions) _ (age_decides h r l))
      | inr found ↦ rw found (
          let counted =
            join-IsAccounted ms hs (migrations-IsAccounted h r l _) (targets-IsAccounted h r l _) in
          some_decision (ms.decisions ++ hs.decisions) (ms.findings ++ hs.findings) found counted)
    ]

at_decides :
    (h : Host) (r : Repo) (ts : Targets) (line : String) (o : Option Time)
    → (is_empty (judge_at h r ts line o).decisions ≡ false)
      × (count_reported (judge_at h r ts line o).decisions
          ≡ length (judge_at h r ts line o).findings)
unfolding judge_at IsAccounted count_reported
at_decides h r ts line none = (refl, refl)
at_decides h r ts line (some t) = (judge_decides h r ts _, judge-IsAccounted h r ts _)

-- Every line of git status leaves at least one decision, and there are as many decisions that report
-- something as there are findings: nothing is found silently or dropped silently.
pub judge_line_decides :
    (h : Host) (r : Repo) (ts : Targets) (line : String)
    → (is_empty (judge_line h r ts line).decisions ≡ false)
      × (count_reported (judge_line h r ts line).decisions
          ≡ length (judge_line h r ts line).findings)
unfolding judge_line
judge_line_decides h r ts line = at_decides h r ts line (r.mtime (path_of line))
