-- ===== src/Queue.antt =====
-- The rows of the tables behind the queue, and what the program asks of them: a row has the columns
-- that some call selects, and a column that a call did not select reads as `none`.
use az_lab.Json.{Json, Dict}
use az_lab.Time.{Time}
use az_lab.Prelude.{
  ℕ, String, Bool, Option, none, some, List, [], ◌∷◌, ◌==◌, if◌then◌else◌, or_else,
}

-- A column read by `row.get(name, default)`: the default stands in for a missing key, not for NULL.
pub data Column (A : Type 0) : Type 0 where
  absent : Column A
  null : Column A
  value : A → Column A

pub record Task : Type 0 where
  pub id : String
  pub title : Option String
  pub description : Option String
  pub context : Json
  pub priority : Column ℕ
  pub tags : Option (List String)
  pub status : Option String
  pub target : Option String
  pub goal_id : Option String
  pub attempt_count : Option ℕ
  pub max_attempts : Option ℕ
  pub error : Option String
  pub claimed_at : Option String
  pub updated_at : Option String
  pub created_at : Option String
  pub expires_at : Option String
  pub not_before : Option String
  pub unblock_condition : Json
  pub blocked_by_task_ids : Option (List String)
  pub result : Option String
  pub recurring : Option Bool
  pub recurring_schedule : Option String
  pub jeff_notes : Option String

pub record NewTask : Type 0 where
  pub title : String
  pub description : String
  pub priority : Option ℕ
  pub target : Option String
  pub tags : List String
  pub source : String
  pub status : String
  pub goal_id : Option String
  pub context : Option Dict

pub record Goal : Type 0 where
  pub id : String
  pub title : Option String
  pub description : Option String
  pub implementation_prompt : Option String
  pub priority : Column ℕ
  pub status : Option String
  pub parent_id : Option String
  pub target_date : Option String
  pub last_queued_at : Option String
  pub notes : Option String

-- PostgREST's filters.
pub data Cond : Type 0 where
  id_eq status_eq target_eq goal_eq level_eq : String → Cond
  id_in status_in target_in : List String → Cond
  archived_null auto_queue prompt_not_null : Cond
  not_before_null_or_due created_before target_due : Time → Cond

pub data Order : Type 0 where
  priority_asc created_asc updated_asc sort_asc target_date_asc : Order

pub record Query : Type 0 where
  pub conds : List Cond
  pub order : List Order
  pub limit : Option ℕ

-- The columns that a PATCH writes.
pub data Assign : Type 0 where
  status : String → Assign
  claimed_by : Option String → Assign
  claimed_at : Option Time → Assign
  result : Option String → Assign
  blocked_reason : Option String → Assign
  failure_mode : String → Assign
  error : String → Assign
  attempt_count : ℕ → Assign
  target : String → Assign
  tags : List String → Assign
  context : Dict → Assign
  notes : String → Assign
  progress : ℕ → Assign
  last_queued_at : Time → Assign

-- A row of `agent_activity`.
pub record Activity : Type 0 where
  pub activity_type : Option String
  pub content : Option String

-- A row of `sentinel_notifications`.
pub record Note : Type 0 where
  pub severity : String
  pub title : String
  pub body : String
  pub category : String
  pub source_id : Option String
  pub urgency : String

-- The columns with which `agent_episodes` is closed.
pub record EpisodeEnd : Type 0 where
  pub status : String
  pub ended_at : Time
  pub summary : Option String
  pub outcome : Option String

-- A row of `guardian_audits`.
pub record Audit : Type 0 where
  pub clean : Bool
  pub severity : String
  pub flags : List String
  pub summary : String

-- `x or ""`
abbrev pub text : Option String → String
text none = ""
text (some s) = s

-- An f-string writes NULL as `None`.
abbrev pub shown : Option String → String
shown none = "None"
shown (some s) = s

-- `a or b`, on texts
abbrev pub or_text : String → String → String
or_text a b = if a == "" then b else a

-- task.get("tags") or []
abbrev pub tags_of : Task → List String
tags_of t = or_else t.tags []

abbrev pub all_rows : List Cond → Query
all_rows cs = record { conds = cs; order = []; limit = none }

-- id=eq.…&limit=1
abbrev pub row_of : String → Query
row_of id = record { conds = Cond.id_eq id ∷ []; order = []; limit = some 1 }
