-- ===== src/Event.antt =====
-- The world outside the program: PostgREST, Discord, the agents' subprocesses, the clock, the file
-- system and the library functions that the program calls. `Trace` is what the program has asked of
-- it so far, the latest first, and each answer of an `Env` may depend on all of it.
use az_lab.Json.{Json, null, bool, num, str, arr, obj}
use az_lab.Time.{Time, Stamp}
use az_lab.Queue.{Task, NewTask, Goal, Cond, Query, Assign, Activity, Note, EpisodeEnd, Audit}
use az_lab.Prelude.{ℕ, String, Bool, Option, List}

-- What a call raises; the text is `str(e)`.
pub data Exn : Type 0 where
  request_error type_error value_error index_error os_error runtime_error : String → Exn

abbrev pub message : Exn → String
message (request_error s) = s
message (type_error s) = s
message (value_error s) = s
message (index_error s) = s
message (os_error s) = s
message (runtime_error s) = s

pub data Result {ℓ} (A : Type ℓ) : Type ℓ where
  ok : A → Result A
  err : Exn → Result A

-- What a command returned: whether its status is 0, and its two outputs.
pub record Command : Type 0 where
  pub success : Bool
  pub out : String
  pub errors : String

-- A line that a session printed, and whether it came after the deadline.
pub record Line : Type 0 where
  pub late : Bool
  pub text : String

-- A session of claude: its PID, the seconds that it was given, its lines in their order, its exit status, and
-- what it wrote to stderr.
pub record Session : Type 0 where
  pub pid : String
  pub timeout : ℕ
  pub lines : List Line
  pub success : Bool
  pub status : String
  pub errors : String

pub data Event : Type 0 where
  read_clock : Event
  select_tasks : Query → Event
  update_tasks : List Cond → List Assign → Event
  insert_task : NewTask → Event
  insert_activity : String → String → Option String → Event
  select_activity : String → Option Time → ℕ → Event
  send : String → Event
  select_goals : Query → Event
  update_goal : String → List Assign → Event
  insert_episode : String → String → Event
  update_episode : String → EpisodeEnd → Event
  select_skills : Event
  skill_outcome : String → Bool → String → Event
  recurring_result : String → Option String → Event
  select_memory : String → Event
  select_notes : String → Event
  insert_note : Note → Event
  insert_audit : Option String → Audit → Event
  run_claude : String → Option String → Option Json → Event
  run_haiku : String → Event
  run_guardian : String → Event
  run_nemotron : String → Event
  start_unit : String → Event
  heartbeat : String → Event
  stat : String → Event
  load_state load_cowork : Event
  save_cowork : List String → Event
  save_state : List (String × String) → Event
  probe : String → Event
  kill : String → Event
  run_command : List String → Option String → Event
  read_file : String → Event
  write_file : String → String → Event
  patch_row : String → List (String × Option String) → Event
  audit_row : String → String → String → Option String → Event
  record_run : String → String → String → String → Option ℕ → Event

abbrev pub Trace : Type 0
Trace = List Event

pub record Env : Type 0 where
  pub clock : Trace → Time
  pub select_tasks : Trace → Query → Result (List Task)
  pub update_tasks : Trace → List Cond → List Assign → Result (List Task)
  -- the ids of the rows that were made
  pub insert_task : Trace → NewTask → Result (List String)
  pub insert_activity : Trace → String → String → Option String → Result (Unit {0})
  pub select_activity : Trace → String → Option Time → ℕ → Result (List Activity)
  pub send : Trace → String → Result (Unit {0})
  pub select_goals : Trace → Query → Result (List Goal)
  pub update_goal : Trace → String → List Assign → Result (Unit {0})
  pub insert_episode : Trace → String → String → Result (Option String)
  pub update_episode : Trace → String → EpisodeEnd → Result (Unit {0})
  pub select_skills : Trace → Result (List (String × List String))
  pub skill_outcome : Trace → String → Bool → String → Result (Unit {0})
  pub recurring_result : Trace → String → Option String → Result (Unit {0})
  pub select_memory : Trace → String → Result (List String)
  pub select_notes : Trace → String → Result (List String)
  pub insert_note : Trace → Note → Result (Unit {0})
  pub insert_audit : Trace → Option String → Audit → Result (Unit {0})
  pub run_claude : Trace → String → Option String → Option Json → Result Session
  pub run_haiku : Trace → String → Result String
  pub run_guardian : Trace → String → Result Audit
  pub run_nemotron : Trace → String → Result String
  pub start_unit : Trace → String → Result (Unit {0})
  pub exists : Trace → String → Bool
  pub is_dir : Trace → String → Bool
  pub expanduser : String → String
  pub mtime : Trace → String → Result Time
  pub load_state : Trace → List (String × String)
  pub load_cowork : Trace → List String
  -- datetime.fromisoformat, after the `Z` is written out, and isoformat
  pub parse : String → Stamp
  pub isoformat : Time → String
  -- json.dumps(_, indent=2), and str(_) of a value that is no text
  pub dumps : Json → String
  -- json.dumps without indentation, and json.loads (`none` is a JSONDecodeError)
  pub dumps_flat : Json → String
  pub loads : String → Option Json
  -- json.dumps(_, separators=(",", ":"))
  pub dumps_compact : Json → String
  pub repr : Json → String
  -- repr(_) of a text
  pub quote : String → String
  -- re.search(pattern, text, re.IGNORECASE): where the leftmost match begins and ends
  pub research : String → String → Option (ℕ × ℕ)
  -- thread.is_alive() of a task's thread; proc.poll() is None and proc.kill() of a process
  pub thread_alive : Trace → String → Bool
  pub proc_running : Trace → String → Result Bool
  pub kill : Trace → String → Result (Unit {0})
  -- subprocess.run, with a text for its input
  pub run_command : Trace → List String → Option String → Result Command
  -- a file that is missing reads as `none`; a write makes the directory
  pub read_file : Trace → String → Result (Option String)
  pub write_file : Trace → String → String → Result (Unit {0})
  -- the tables of the scheduled activities
  pub patch_row : Trace → String → List (String × Option String) → Result (Unit {0})
  pub audit_row : Trace → String → String → String → Option String → Result (Unit {0})
  pub record_run : Trace → String → String → String → String → Option ℕ → Result (Unit {0})
  -- datetime.strptime(_, "%Y-%m-%d %H:%M:%S") in UTC, and fromisoformat(_).isoformat()
  pub strptime : String → Option Time
  pub reformat : String → Option String

-- f"{v}" and str(v)
unfoldable pub shown_json : Env → Json → String
shown_json env (str s) = s
shown_json env null = env.repr null
shown_json env (bool b) = env.repr (bool b)
shown_json env (num n) = env.repr (num n)
shown_json env (arr xs) = env.repr (arr xs)
shown_json env (obj d) = env.repr (obj d)
