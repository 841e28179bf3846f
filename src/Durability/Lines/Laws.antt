-- ===== src/Durability/Lines/Laws.antt =====
-- Which lines are quiet.
use az_lab.Time.{Time}
use az_lab.Durability.{Finding, Host, Repo, age, dirty_max_age}
use az_lab.Durability.Migrations.{applied_migration_head, ledgered_migrations_under}
use az_lab.Durability.Targets.{Targets, Hit, is_execstart_target}
use az_lab.Durability.Lines.{
  Line, is_applied, judge_migration, judge_migrations, judge_targets, judge_age, judge, judge_at,
  judge_line, judge_lines, path_of,
}
use az_lab.Prelude.{
  ℕ, ◌≤◌, String, ◌≡◌, refl, inl, inr, ◌↔◌, true, false, Option, none, some, List, [], ◌∷◌, ◌++◌,
  is_empty, All, Bool-cases, arith, leb,
}

leb→le : (a b : ℕ) → leb a b ≡ true → a ≤ b
leb→le a b h = ground arith

le→leb : (a b : ℕ) → a ≤ b → leb a b ≡ true
le→leb a b h = ground arith

pub append_quiet : (fs gs : List Finding) → fs ++ gs ≡ [] ↔ (fs ≡ []) × (gs ≡ [])
append_quiet [] gs = ((λ e. (refl, e)), (λ p. p.1))
append_quiet (f ∷ fs) gs = ((λ e. ground arith), (λ p. let e = p.0 in ground arith))

-- No migration of the list has been applied, as far as the ledger tells.
abbrev pub Unapplied : Host → List (String × ℕ) → Type 0
Unapplied h ms =
    All (λ (m : String × ℕ). is_applied ((applied_migration_head h).0) (m.1) ≡ false) ms

migrations_quiet :
    (h : Host) (r : Repo) (l : Line) (ms : List (String × ℕ))
    → (judge_migrations h r l ms).findings ≡ [] ↔ Unapplied h ms
unfolding judge_migrations judge_migration
migrations_quiet h r l [] = ((λ e. tt), (λ a. refl))
migrations_quiet h r l ((path, seq) ∷ ms) =
    elim (Bool-cases (is_applied ((applied_migration_head h).0) seq)) [
      | inl applied ↦ rw applied ((λ e. ground arith), (λ a. let no = a.0 in ground arith))
      | inr not_yet ↦ rw not_yet (
        (λ e. (refl, (migrations_quiet h r l ms).0 e)),
        (λ a. (migrations_quiet h r l ms).1 (a.1)),
      )
    ]

targets_quiet :
    (h : Host) (r : Repo) (l : Line) (ts : List Hit)
    → (judge_targets h r l ts).findings ≡ [] ↔ ts ≡ []
unfolding judge_targets
targets_quiet h r l [] = ((λ e. refl), (λ e. refl))
targets_quiet h r l (t ∷ ts) = ((λ e. ground arith), (λ e. ground arith))

age_quiet :
    (h : Host) (r : Repo) (l : Line) → (judge_age h r l).findings ≡ [] ↔ l.since ≤ dirty_max_age
unfolding judge_age
age_quiet h r l = elim (Bool-cases (leb l.since dirty_max_age)) [
  | inl young ↦ rw young ((λ e. leb→le _ _ young), (λ le. refl))
  | inr old ↦
      rw old
        ((λ e. ground arith), (λ le. let young = le→leb l.since dirty_max_age le in ground arith))
]

-- A line that is no finding: nothing at or below the path is an applied migration or is run by
-- systemd, and the path is at most three days old.
pub record IsQuiet (h : Host) (r : Repo) (ts : Targets) (path : String) (since : ℕ) : Type 0 where
  pub unapplied : Unapplied h (ledgered_migrations_under r path)
  pub not_run : is_execstart_target r ts path ≡ []
  pub young : since ≤ dirty_max_age

is_empty→≡ : (fs : List Finding) → is_empty fs ≡ true → fs ≡ []
is_empty→≡ [] e = refl
is_empty→≡ (f ∷ fs) e = ground arith

judge-IsQuiet :
    (h : Host) (r : Repo) (ts : Targets) (l : Line)
    → (judge h r ts l).findings ≡ [] ↔ IsQuiet h r ts l.path l.since
unfolding judge
judge-IsQuiet h r ts l =
    let ms = judge_migrations h r l (ledgered_migrations_under r l.path) in
    let hs = judge_targets h r l (is_execstart_target r ts l.path) in
    let both = append_quiet ms.findings hs.findings in
    let m = migrations_quiet h r l (ledgered_migrations_under r l.path) in
    let t = targets_quiet h r l (is_execstart_target r ts l.path) in
    let a = age_quiet h r l in
    elim (Bool-cases (is_empty (ms.findings ++ hs.findings))) [
      | inl empty ↦
          let none_found = is_empty→≡ (ms.findings ++ hs.findings) empty in
          rw empty (
            (λ e. record {
              unapplied = m.0 ((both.0 none_found).0);
              not_run = t.0 ((both.0 none_found).1);
              young =
                  a.0 (
                    ((append_quiet (ms.findings ++ hs.findings) (judge_age h r l).findings).0 e).1);
            }),
            (λ q.
                (append_quiet (ms.findings ++ hs.findings) (judge_age h r l).findings).1
                  (none_found, a.1 q.young)),
          )
      | inr found ↦ rw found (
        (λ e. let no : is_empty (ms.findings ++ hs.findings) ≡ true = rw e refl in ground arith),
        (λ q. both.1 (m.1 q.unapplied, t.1 q.not_run)),
      )
    ]

-- A line that cannot be examined is skipped; any other is quiet or a finding.
abbrev QuietAt : Host → Repo → Targets → String → Option Time → Type 0
QuietAt h r ts line none = Unit
QuietAt h r ts line (some t) = IsQuiet h r ts (path_of line) (age h t)

abbrev pub QuietLine : Host → Repo → Targets → String → Type 0
QuietLine h r ts line = QuietAt h r ts line (r.mtime (path_of line))

at_quiet :
    (h : Host) (r : Repo) (ts : Targets) (line : String) (o : Option Time)
    → (judge_at h r ts line o).findings ≡ [] ↔ QuietAt h r ts line o
unfolding judge_at
at_quiet h r ts line none = ((λ e. tt), (λ q. refl))
at_quiet h r ts line (some t) = judge-IsQuiet h r ts _

pub lines_quiet :
    (h : Host) (r : Repo) (ts : Targets) (lines : List String)
    → (judge_lines h r ts lines).findings ≡ [] ↔ All (QuietLine h r ts) lines
unfolding judge_lines judge_line
lines_quiet h r ts [] = ((λ e. tt), (λ a. refl))
lines_quiet h r ts (l ∷ ls) =
    let both = append_quiet (judge_line h r ts l).findings (judge_lines h r ts ls).findings in
    let one = at_quiet h r ts l (r.mtime (path_of l)) in
    let rest = lines_quiet h r ts ls in
    (
      (λ e. (one.0 ((both.0 e).0), rest.0 ((both.0 e).1))),
      (λ a. both.1 (one.1 (a.0), rest.1 (a.1))),
    )
