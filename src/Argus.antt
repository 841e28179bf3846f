-- ===== src/Argus.antt =====
-- infrastructure/task-queue/argus.py: the orchestrator of the queue. `Registry` is `_running`; the
-- thread of an entry is named by its task's id, and a process by the text of its PID.
pub mod Claiming
pub mod Worker
pub mod Stalls
pub mod Loop
use az_lab.Text
use az_lab.Time.{Time}
use az_lab.Recurring.{priority_of}
use az_lab.Routing.{lower_tags}
use az_lab.Queue.{Task, text}
use az_lab.Prelude.{
  ℕ, ◌*◌, String, Bool, true, false, not, ◌||◌, Option, none, some, List, [], ◌∷◌, ◌++◌, ◌==◌, ltb,
  eqb, if◌then◌else◌, keep, elem,
}

abbrev pub max_workers : ℕ
max_workers = 1

abbrev pub seconds : ℕ → ℕ
seconds n = n * 1000000

abbrev pub heartbeat_interval : ℕ
heartbeat_interval = seconds 300

abbrev pub sweep_interval : ℕ
sweep_interval = seconds 300

-- SIMPLE_STALL_SECS and COMPLEX_STALL_SECS
abbrev pub simple_stall_secs : ℕ
simple_stall_secs = 1800

abbrev pub complex_stall_secs : ℕ
complex_stall_secs = 7200

abbrev pub discord_progress_secs : ℕ
discord_progress_secs = 900

pub record Entry : Type 0 where
  pub task : Task
  pub started_at : Time
  pub last_discord_at : Time
  pub stall_threshold : ℕ
  pub is_complex : Bool
  pub proc : Option String

abbrev pub Registry : Type 0
Registry = List (String × Entry)

abbrev has_priority_zero : Option ℕ → Bool
has_priority_zero none = false
has_priority_zero (some n) = eqb n 0

unfoldable pub is_complex : Task → Bool
unfolding Text.length lower_tags priority_of
is_complex t =
    has_priority_zero (priority_of t.priority)
    || (elem "complex" (lower_tags t) || ltb 800 (Text.length (text t.description)))

unfoldable pub threshold_of : Task → ℕ
threshold_of t = if is_complex t then complex_stall_secs else simple_stall_secs

-- _running.pop(id, None)
unfoldable pub pop : String → Registry → Registry
pop id r = keep (λ e. not (e.0 == id)) r

-- `_spawn_worker`: what it registers. An entry that is there already is
-- written over; where it stood is not kept.
unfoldable pub spawn : Task → Time → Registry → Registry
unfolding pop
spawn t at r =
    pop t.id r
    ++ ((
      t.id,
      record {
        task = t;
        started_at = at;
        last_discord_at = at;
        stall_threshold = threshold_of t;
        is_complex = is_complex t;
        proc = none;
      },
    )
        ∷ [])

unfoldable pub set_proc : String → String → Registry → Registry
set_proc id pid [] = []
set_proc id pid ((i, e) ∷ r) =
    let rest = set_proc id pid r in
    if i == id then (i, record e { proc = some pid }) ∷ rest else (i, e) ∷ rest

-- `_register_proc`
unfoldable pub register_proc : String → String → Registry → Registry
unfolding set_proc
register_proc id pid r = set_proc id pid r
