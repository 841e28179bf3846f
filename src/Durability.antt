-- ===== src/Durability.antt =====
-- infrastructure/git-durability/git_durability_audit.py: the work of a repository that is on this
-- disk alone. Here are its findings and what it asks of git, systemd and the database.
pub mod Migrations
pub mod Targets
pub mod Lines
pub mod Repos
pub mod Runs
pub mod Escalation
use az_lab.Time.{Time}
use az_lab.Units.{FilePath}
use az_lab.Prelude.{ℕ, ◌-◌, ◌*◌, String, ◌<>◌, Bool, Option, List, ltb}

pub data Kind : Type 0 where
  fetch_failed no_upstream unpushed dirty untracked applied_migration executing_uncommitted : Kind

unfoldable pub kind_name : Kind → String
kind_name fetch_failed = "FETCH_FAILED"
kind_name no_upstream = "NO_UPSTREAM"
kind_name unpushed = "UNPUSHED"
kind_name dirty = "DIRTY"
kind_name untracked = "UNTRACKED"
kind_name applied_migration = "APPLIED_MIGRATION"
kind_name executing_uncommitted = "EXECUTING_UNCOMMITTED"

pub record Finding : Type 0 where
  pub kind : Kind
  pub repo : String
  pub ident : String
  pub detail : String

unfoldable pub finding : Kind → String → String → String → Finding
unfolding kind_name
finding k repo place detail = record {
  kind = k;
  repo = repo;
  ident = kind_name k <> (":" <> (repo <> (":" <> place)));
  detail = detail;
}

-- The ledger of the database: no key, a failed query, or the head that it answers.
pub data Ledger : Type 0 where
  no_key : Ledger
  failed : String → Ledger
  answered : String → Ledger

-- What git and the file system answer of one repository, `none` for a failure.
pub record Repo : Type 0 where
  pub name : String
  pub root : FilePath
  pub is_git : Bool
  pub branch : Option String
  -- the error of git fetch
  pub fetch_error : Option String
  pub porcelain : String
  pub has_upstream : Bool
  pub ahead : ℕ
  -- the time of the oldest commit ahead, if git prints one
  pub oldest : Option Time
  pub mtime : String → Option Time
  -- the *.sql files below, in their order, where the path is a directory; none of them if it
  -- cannot be read
  pub sql_below : String → Option (List String)
  -- the real path, and whether it is a directory
  pub resolve : String → Option FilePath
  pub is_dir : String → Bool

-- The clock, the ledger, and the formats `.1f` and `.0f` of days.
pub record Host : Type 0 where
  pub now : Time
  pub ledger : Ledger
  pub quote : String → String
  pub show_days : ℕ → String
  pub show_whole_days : ℕ → String

abbrev pub age : Host → Time → ℕ
age h t = h.now - t

abbrev pub day : ℕ
day = 86400000000

-- DIRTY_MAX_AGE_D and UNPUSHED_MAX_AGE_D
abbrev pub dirty_max_age : ℕ
dirty_max_age = 3 * day

abbrev pub unpushed_max_age : ℕ
unpushed_max_age = 2 * day
