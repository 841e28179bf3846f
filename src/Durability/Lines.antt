-- ===== src/Durability/Lines.antt =====
-- `audit_repo`, the classification: what is decided on each line of `git status --porcelain`.
pub mod Laws
pub mod Accounts
use Prim.Native.String.{[] as empty, ◌∷◌ as ◌▸◌}
use Prim.Native.Char.{code}
use az_lab.Text
use az_lab.Time.{Time}
use az_lab.Durability.{
  Kind, dirty, untracked, applied_migration, executing_uncommitted, kind_name, Finding, finding,
  Host, Repo, age, dirty_max_age,
}
use az_lab.Durability.Migrations.{applied_migration_head, ledgered_migrations_under}
use az_lab.Durability.Targets.{Targets, Hit, is_execstart_target}
use az_lab.Prelude.{
  ℕ, String, ◌<>◌, ◌≡◌, refl, Bool, true, ◌&&◌, Option, none, some, List, [], ◌∷◌, ◌++◌, ◌==◌, leb,
  eqb, if◌then◌else◌, is_empty,
}

pub data Verdict : Type 0 where
  skipped not_applied fine reported : Verdict

pub record Decision : Type 0 where
  pub code_of : String
  pub path : String
  pub verdict : Verdict

-- The decisions are printed, the findings are returned.
pub record Judged : Type 0 where
  pub decisions : List Decision
  pub findings : List Finding

abbrev pub join : Judged → Judged → Judged
join a b = record { decisions = a.decisions ++ b.decisions; findings = a.findings ++ b.findings }

abbrev pub nothing : Judged
nothing = record { decisions = []; findings = [] }

-- A line of git status: its code, its path, and the age of what stands there.
pub record Line : Type 0 where
  pub status : String
  pub path : String
  pub since : ℕ

abbrev decided : Line → String → Verdict → Judged
decided l path v = record {
  decisions = record { code_of = l.status; path = path; verdict = v } ∷ [];
  findings = [];
}

abbrev told : Line → String → Finding → Judged
told l path f = record {
  decisions = record { code_of = l.status; path = path; verdict = reported } ∷ [];
  findings = f ∷ [];
}

pub kind_of : Line → Kind
unfolding Text.strip
kind_of l = if Text.strip l.status == "??" then untracked else dirty

-- A ledger that cannot be reached counts as having applied every migration.
abbrev pub is_applied : Option ℕ → ℕ → Bool
is_applied none seq = true
is_applied (some head) seq = leb seq head

why : Option ℕ → String → ℕ → String
unfolding Text.show
why none source seq =
    "ledger UNAVAILABLE ("
    <> (source
        <> ") — failing closed; an applied migration is unrecoverable, an unapplied one costs a commit")
why (some head) source seq =
    "APPLIED to production (" <> (source <> (" >= " <> (Text.show seq <> ")")))

pub migration_finding : Host → Repo → Line → String → ℕ → Finding
unfolding finding kind_name kind_of why Text.lower
migration_finding h r l path seq =
    let (head, source) = applied_migration_head h in
    finding applied_migration r.name path (
      path
      <> (" — "
          <> (Text.lower (kind_name (kind_of l))
              <> (" but "
                  <> (why head source seq
                      <> ("; "
                          <> (h.show_days l.since
                              <> "d old. The DDL behind the live schema exists only on this disk")))))))

judge_migration : Host → Repo → Line → String × ℕ → Judged
unfolding migration_finding
judge_migration h r l (path, seq) =
    if is_applied ((applied_migration_head h).0) seq
    then told l path (migration_finding h r l path seq)
    else decided l path not_applied

pub judge_migrations : Host → Repo → Line → List (String × ℕ) → Judged
unfolding judge_migration
judge_migrations h r l [] = nothing
judge_migrations h r l (m ∷ ms) = join (judge_migration h r l m) (judge_migrations h r l ms)

abbrev age_or : Host → Line → Option Time → ℕ
age_or h l none = l.since
age_or h l (some t) = age h t

pub target_finding : Host → Repo → Line → Hit → Finding
unfolding finding kind_name kind_of Text.lower Text.join
target_finding h r l (path, units) = finding executing_uncommitted r.name path (
    path
    <> (" — "
        <> (Text.lower (kind_name (kind_of l))
            <> (" and is ExecStart of "
                <> (Text.join ", " units
                    <> ("; "
                        <> (h.show_days (age_or h l (r.mtime path))
                            <> "d old. Production is executing source that exists only on this disk")))))))

pub judge_targets : Host → Repo → Line → List Hit → Judged
unfolding target_finding
judge_targets h r l [] = nothing
judge_targets h r l (t ∷ ts) = join (told l (t.0) (target_finding h r l t)) (judge_targets h r l ts)

judge_age : Host → Repo → Line → Judged
unfolding finding kind_name kind_of
judge_age h r l =
    if leb l.since dirty_max_age
    then decided l l.path fine
    else told l l.path (
        finding (kind_of l) r.name l.path
          (l.path <> (" — uncommitted for " <> (h.show_whole_days l.since <> "d"))))

-- The class goes before the age: the age counts only for what is in neither class.
pub judge : Host → Repo → Targets → Line → Judged
unfolding judge_migrations judge_targets judge_age
judge h r ts l =
    let by_class =
      join (judge_migrations h r l (ledgered_migrations_under r l.path))
        (judge_targets h r l (is_execstart_target r ts l.path)) in
    if is_empty by_class.findings then join by_class (judge_age h r l) else by_class

lstrip_quotes : String → String
lstrip_quotes empty = ""
lstrip_quotes (c ▸ s) = let rest = lstrip_quotes s in if eqb (code c) 34 then rest else c ▸ s

rstrip_quotes : String → String
rstrip_quotes empty = ""
rstrip_quotes (c ▸ s) =
    let rest = rstrip_quotes s in if eqb (code c) 34 && rest == "" then "" else c ▸ rest

-- line[3:].strip().strip('"')
pub path_of : String → String
unfolding lstrip_quotes rstrip_quotes Text.strip Text.drop
path_of line = rstrip_quotes (lstrip_quotes (Text.strip (Text.drop 3 line)))

judge_at : Host → Repo → Targets → String → Option Time → Judged
unfolding judge path_of Text.take
judge_at h r ts line none = record {
  decisions = record { code_of = Text.take 2 line; path = path_of line; verdict = skipped } ∷ [];
  findings = [];
}
judge_at h r ts line (some t) =
    judge h r ts (record { status = Text.take 2 line; path = path_of line; since = age h t })

-- What cannot be examined is skipped, and said to be.
unfoldable pub judge_line : Host → Repo → Targets → String → Judged
unfolding judge_at path_of
judge_line h r ts line = judge_at h r ts line (r.mtime (path_of line))

unfoldable pub judge_lines : Host → Repo → Targets → List String → Judged
unfolding judge_line
judge_lines h r ts [] = nothing
judge_lines h r ts (l ∷ ls) = join (judge_line h r ts l) (judge_lines h r ts ls)

path_tests : (path_of " M \"a b.py\"" ≡ "a b.py") × (path_of "?? .claude/" ≡ ".claude/")
unfolding path_of
path_tests = (refl, refl)
