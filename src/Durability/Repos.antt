-- ===== src/Durability/Repos.antt =====
-- `audit_repo`: the findings of one repository, from the fetch to the lines.
pub mod Laws
use az_lab.Text
use az_lab.Time.{Time}
use az_lab.Durability.{
  fetch_failed, no_upstream, unpushed, kind_name, Finding, finding, Host, Repo, age,
  unpushed_max_age,
}
use az_lab.Durability.Targets.{Systemd, Targets, execstart_targets}
use az_lab.Durability.Lines.{judge_lines}
use az_lab.Prelude.{
  ℕ, String, ◌<>◌, Option, none, some, List, [], ◌∷◌, ◌++◌, map, ltb, eqb, if◌then◌else◌,
}

fetch_findings : Repo → String → Option String → List Finding
unfolding finding kind_name
fetch_findings r branch none = []
fetch_findings r branch (some e) =
    finding fetch_failed r.name ("origin/" <> branch)
      ("could not fetch origin/" <> (branch <> "; ahead-count below is unproven"))
    ∷ []

-- The age of the oldest commit ahead, 0 if git prints none.
abbrev pub oldest_age : Host → Option Time → ℕ
oldest_age h none = 0
oldest_age h (some t) = age h t

push_findings : Host → Repo → String → List Finding
unfolding finding kind_name Text.show
push_findings h r branch =
    let old = oldest_age h r.oldest in
    if eqb r.ahead 0
    then []
    else if ltb unpushed_max_age old
    then finding unpushed r.name branch (
        Text.show r.ahead
        <> (" commit(s) ahead of origin/"
            <> (branch
                <> ("; oldest is " <> (h.show_days old <> "d old and exists only on this disk")))))
      ∷ []
    else []

upstream_findings : Host → Repo → String → List Finding
unfolding finding kind_name push_findings
upstream_findings h r branch =
    if r.has_upstream
    then push_findings h r branch
    else finding no_upstream r.name branch
        ("branch " <> (branch <> (" has no origin/" <> (branch <> " — work has no remote copy"))))
      ∷ []

audit_branch : Host → Targets → Repo → Option String → List Finding
unfolding fetch_findings upstream_findings Text.splitlines
audit_branch h ts r none = []
audit_branch h ts r (some branch) =
    fetch_findings r branch r.fetch_error
    ++ (upstream_findings h r branch ++ (judge_lines h r ts (Text.splitlines r.porcelain)).findings)

-- What is no git repository, or has no branch, is skipped.
unfoldable pub audit_repo : Host → Targets → Repo → List Finding
unfolding audit_branch
audit_repo h ts r = if r.is_git then audit_branch h ts r r.branch else []

audit_each : Host → Targets → List Repo → List Finding
unfolding audit_repo
audit_each h ts [] = []
audit_each h ts (r ∷ rs) = audit_repo h ts r ++ audit_each h ts rs

-- The findings of all repositories; the targets are asked for once.
pub audit : Host → Systemd → List Repo → List Finding
unfolding audit_each execstart_targets
audit h d rs = audit_each h (execstart_targets d (map (λ r. r.root) rs)) rs
