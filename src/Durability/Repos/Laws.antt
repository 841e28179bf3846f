-- ===== src/Durability/Repos/Laws.antt =====
-- What it means that a repository has no finding.
use az_lab.Text
use az_lab.Durability.{Host, Repo, unpushed_max_age}
use az_lab.Durability.Targets.{Targets}
use az_lab.Durability.Lines.{judge_lines}
use az_lab.Durability.Lines.Laws.{QuietLine, append_quiet, lines_quiet}
use az_lab.Durability.Repos.{
  fetch_findings, oldest_age, push_findings, upstream_findings, audit_branch, audit_repo,
}
use az_lab.Prelude.{
  ◌≤◌, String, ◌≡◌, refl, subst, ◌⊎◌, inl, inr, ◌↔◌, Bool, true, Option, none, some, [], ltb, eqb,
  All, if◌then◌else◌, if◌then◌else◌, Bool-cases, arith, ltb→le, le→ltb,
}

fetch_quiet :
    (r : Repo) (branch : String) (o : Option String) → fetch_findings r branch o ≡ [] ↔ o ≡ none
unfolding fetch_findings
fetch_quiet r branch none = ((λ e. refl), (λ e. refl))
fetch_quiet r branch (some s) = ((λ e. ground arith), (λ e. ground arith))

-- No commit is ahead, or the oldest is at most two days old.
abbrev pub Pushed : Host → Repo → Type 0
Pushed h r = (r.ahead ≡ 0) ⊎ (oldest_age h r.oldest ≤ unpushed_max_age)

push_quiet : (h : Host) (r : Repo) (branch : String) → push_findings h r branch ≡ [] ↔ Pushed h r
unfolding push_findings
push_quiet h r branch = elim (Bool-cases (eqb r.ahead 0)) [
  | inl none_ahead ↦ rw none_ahead ((λ e. inl (ground arith)), (λ p. refl))
  | inr ahead ↦ elim (Bool-cases (ltb unpushed_max_age (oldest_age h r.oldest))) [
    | inl old ↦ rw ahead (
        rw old (
          (λ e. ground arith),
          (λ p. elim p [
            | inl zero_ahead ↦ ground arith
            | inr young ↦ let no = le→ltb _ _ young in ground arith
          ]),
        ))
    | inr young ↦ rw ahead (rw young ((λ e. inr (ltb→le _ _ young)), (λ p. refl)))
  ]
]

upstream_quiet :
    (h : Host) (r : Repo) (branch : String)
    → upstream_findings h r branch ≡ [] ↔ (r.has_upstream ≡ true) × Pushed h r
unfolding upstream_findings
upstream_quiet h r branch = elim (Bool-cases r.has_upstream) [
  | inl there ↦ let p = push_quiet h r branch in rw there ((λ e. (refl, p.0 e)), (λ q. p.1 (q.1)))
  | inr missing ↦ rw missing ((λ e. ground arith), (λ q. let no = q.0 in ground arith))
]

-- The repository without the skips.
abbrev Clean : Host → Targets → Repo → Type 0
Clean h ts r =
    (r.fetch_error ≡ none)
    × (r.has_upstream ≡ true)
    × Pushed h r
    × All (QuietLine h r ts) (Text.splitlines r.porcelain)

branch_quiet :
    (h : Host) (ts : Targets) (r : Repo) (branch : String)
    → audit_branch h ts r (some branch) ≡ [] ↔ Clean h ts r
unfolding audit_branch
branch_quiet h ts r branch =
    let lines = (judge_lines h r ts (Text.splitlines r.porcelain)).findings in
    let f = fetch_quiet r branch r.fetch_error in
    let u = upstream_quiet h r branch in
    let l = lines_quiet h r ts (Text.splitlines r.porcelain) in
    let first = append_quiet (fetch_findings r branch r.fetch_error) _ in
    let second = append_quiet (upstream_findings h r branch) lines in
    (
      (λ e.
          let rest = second.0 ((first.0 e).1) in
          (f.0 ((first.0 e).0), (u.0 (rest.0)).0, (u.0 (rest.0)).1, l.0 (rest.1))),
      (λ q. first.1 (f.1 (q.0), second.1 (u.1 (q.1, q.2), l.1 (q.3)))),
    )

opened :
    (h : Host) (ts : Targets) (r : Repo) (branch : String) (git : Bool) (on : Option String)
    → git ≡ true
    → on ≡ some branch
    → audit_branch h ts r (some branch) ≡ (if git then audit_branch h ts r on else [])
opened h ts r branch git on p q = rw p (rw q refl)

-- A repository with a branch has no finding exactly if the remote could be fetched and has the
-- branch, no commit ahead of it is older than two days, and each line of git status cannot be
-- examined, or is at most three days old and neither covers an applied migration nor anything that
-- systemd runs.
pub audit_repo_quiet :
    (h : Host) (ts : Targets) (r : Repo) (branch : String)
    → r.is_git ≡ true
    → r.branch ≡ some branch
    → audit_repo h ts r ≡ []
      ↔ (r.fetch_error ≡ none)
        × (r.has_upstream ≡ true)
        × Pushed h r
        × All (QuietLine h r ts) (Text.splitlines r.porcelain)
unfolding audit_repo
audit_repo_quiet h ts r branch git on =
    subst (λ fs. fs ≡ [] ↔ Clean h ts r) (opened h ts r branch r.is_git r.branch git on)
      (branch_quiet h ts r branch)
