-- ===== src/Rules/Each.antt =====
-- The rules of the single requests.
use az_lab.Json.{Json}
use az_lab.Time.{Time}
use az_lab.Exec.{
  now, select_tasks, update_tasks, insert_task, insert_activity, select_activity, send,
  select_goals, update_goal, insert_episode, update_episode, select_skills, skill_outcome,
  recurring_result, select_memory, select_notes, insert_note, insert_audit, start_claude, run_haiku,
  run_guardian, run_nemotron, start_unit, heartbeat, exists, is_dir, mtime, load_state, save_state,
  load_cowork, save_cowork, thread_alive, proc_running, kill_proc,
}
use az_lab.Event.{Event}
use az_lab.Queue.{NewTask, Cond, Query, Assign, Note, EpisodeEnd, Audit}
use az_lab.Rules.{Emits, more, here}
use az_lab.Prelude.{ℕ, String, Bool, Option, List}

module _ {P : Event → Type 0} where
  pub Emits-now : P Event.read_clock → Emits P now
  unfolding now
  Emits-now ev = record { at = λ env h. more ev here }

  pub Emits-select_tasks : (q : Query) → P (Event.select_tasks q) → Emits P (select_tasks q)
  unfolding select_tasks
  Emits-select_tasks q ev = record { at = λ env h. more ev here }

  pub Emits-update_tasks :
      (cs : List Cond) (p : List Assign) → P (Event.update_tasks cs p) → Emits P (update_tasks cs p)
  unfolding update_tasks
  Emits-update_tasks cs p ev = record { at = λ env h. more ev here }

  pub Emits-insert_task : (t : NewTask) → P (Event.insert_task t) → Emits P (insert_task t)
  unfolding insert_task
  Emits-insert_task t ev = record { at = λ env h. more ev here }

  pub Emits-insert_activity :
      (kind : String) (content : String) (id : Option String)
      → P (Event.insert_activity kind content id)
      → Emits P (insert_activity kind content id)
  unfolding insert_activity
  Emits-insert_activity kind content id ev = record { at = λ env h. more ev here }

  pub Emits-select_activity :
      (id : String) (since : Option Time) (limit : ℕ)
      → P (Event.select_activity id since limit)
      → Emits P (select_activity id since limit)
  unfolding select_activity
  Emits-select_activity id since limit ev = record { at = λ env h. more ev here }

  pub Emits-send : (s : String) → P (Event.send s) → Emits P (send s)
  unfolding send
  Emits-send s ev = record { at = λ env h. more ev here }

  pub Emits-select_goals : (q : Query) → P (Event.select_goals q) → Emits P (select_goals q)
  unfolding select_goals
  Emits-select_goals q ev = record { at = λ env h. more ev here }

  pub Emits-update_goal :
      (id : String) (p : List Assign) → P (Event.update_goal id p) → Emits P (update_goal id p)
  unfolding update_goal
  Emits-update_goal id p ev = record { at = λ env h. more ev here }

  pub Emits-insert_episode :
      (id : String) (input : String)
      → P (Event.insert_episode id input)
      → Emits P (insert_episode id input)
  unfolding insert_episode
  Emits-insert_episode id input ev = record { at = λ env h. more ev here }

  pub Emits-update_episode :
      (id : String) (p : EpisodeEnd) → P (Event.update_episode id p) → Emits P (update_episode id p)
  unfolding update_episode
  Emits-update_episode id p ev = record { at = λ env h. more ev here }

  pub Emits-select_skills : P Event.select_skills → Emits P select_skills
  unfolding select_skills
  Emits-select_skills ev = record { at = λ env h. more ev here }

  pub Emits-skill_outcome :
      (name : String) (success : Bool) (note : String)
      → P (Event.skill_outcome name success note)
      → Emits P (skill_outcome name success note)
  unfolding skill_outcome
  Emits-skill_outcome name success note ev = record { at = λ env h. more ev here }

  pub Emits-recurring_result :
      (id : String) (result : Option String)
      → P (Event.recurring_result id result)
      → Emits P (recurring_result id result)
  unfolding recurring_result
  Emits-recurring_result id result ev = record { at = λ env h. more ev here }

  pub Emits-select_memory :
      (name : String) → P (Event.select_memory name) → Emits P (select_memory name)
  unfolding select_memory
  Emits-select_memory name ev = record { at = λ env h. more ev here }

  pub Emits-select_notes : (id : String) → P (Event.select_notes id) → Emits P (select_notes id)
  unfolding select_notes
  Emits-select_notes id ev = record { at = λ env h. more ev here }

  pub Emits-insert_note : (n : Note) → P (Event.insert_note n) → Emits P (insert_note n)
  unfolding insert_note
  Emits-insert_note n ev = record { at = λ env h. more ev here }

  pub Emits-insert_audit :
      (id : Option String) (a : Audit) → P (Event.insert_audit id a) → Emits P (insert_audit id a)
  unfolding insert_audit
  Emits-insert_audit id a ev = record { at = λ env h. more ev here }

  pub Emits-start_claude :
      (prompt : String) (model : Option String) (timeout : Option Json)
      → P (Event.run_claude prompt model timeout)
      → Emits P (start_claude prompt model timeout)
  unfolding start_claude
  Emits-start_claude prompt model timeout ev = record { at = λ env h. more ev here }

  pub Emits-run_haiku : (prompt : String) → P (Event.run_haiku prompt) → Emits P (run_haiku prompt)
  unfolding run_haiku
  Emits-run_haiku prompt ev = record { at = λ env h. more ev here }

  pub Emits-run_guardian :
      (prompt : String) → P (Event.run_guardian prompt) → Emits P (run_guardian prompt)
  unfolding run_guardian
  Emits-run_guardian prompt ev = record { at = λ env h. more ev here }

  pub Emits-run_nemotron :
      (prompt : String) → P (Event.run_nemotron prompt) → Emits P (run_nemotron prompt)
  unfolding run_nemotron
  Emits-run_nemotron prompt ev = record { at = λ env h. more ev here }

  pub Emits-start_unit : (unit : String) → P (Event.start_unit unit) → Emits P (start_unit unit)
  unfolding start_unit
  Emits-start_unit unit ev = record { at = λ env h. more ev here }

  pub Emits-heartbeat : (status : String) → P (Event.heartbeat status) → Emits P (heartbeat status)
  unfolding heartbeat
  Emits-heartbeat status ev = record { at = λ env h. more ev here }

  pub Emits-exists : (path : String) → P (Event.stat path) → Emits P (exists path)
  unfolding exists
  Emits-exists path ev = record { at = λ env h. more ev here }

  pub Emits-is_dir : (path : String) → P (Event.stat path) → Emits P (is_dir path)
  unfolding is_dir
  Emits-is_dir path ev = record { at = λ env h. more ev here }

  pub Emits-mtime : (path : String) → P (Event.stat path) → Emits P (mtime path)
  unfolding mtime
  Emits-mtime path ev = record { at = λ env h. more ev here }

  pub Emits-load_state : P Event.load_state → Emits P load_state
  unfolding load_state
  Emits-load_state ev = record { at = λ env h. more ev here }

  pub Emits-save_state :
      (s : List (String × String)) → P (Event.save_state s) → Emits P (save_state s)
  unfolding save_state
  Emits-save_state s ev = record { at = λ env h. more ev here }

  pub Emits-load_cowork : P Event.load_cowork → Emits P load_cowork
  unfolding load_cowork
  Emits-load_cowork ev = record { at = λ env h. more ev here }

  pub Emits-save_cowork :
      (ids : List String) → P (Event.save_cowork ids) → Emits P (save_cowork ids)
  unfolding save_cowork
  Emits-save_cowork ids ev = record { at = λ env h. more ev here }

  pub Emits-thread_alive : (id : String) → P (Event.probe id) → Emits P (thread_alive id)
  unfolding thread_alive
  Emits-thread_alive id ev = record { at = λ env h. more ev here }

  pub Emits-proc_running : (pid : String) → P (Event.probe pid) → Emits P (proc_running pid)
  unfolding proc_running
  Emits-proc_running pid ev = record { at = λ env h. more ev here }

  pub Emits-kill_proc : (pid : String) → P (Event.kill pid) → Emits P (kill_proc pid)
  unfolding kill_proc
  Emits-kill_proc pid ev = record { at = λ env h. more ev here }

pub ruleset request_rules = (
  tt, Emits-now, Emits-select_tasks, Emits-update_tasks, Emits-insert_task, Emits-insert_activity,
  Emits-select_activity, Emits-send, Emits-select_goals, Emits-update_goal, Emits-insert_episode,
  Emits-update_episode, Emits-select_skills, Emits-skill_outcome, Emits-recurring_result,
  Emits-select_memory, Emits-select_notes, Emits-insert_note, Emits-insert_audit,
  Emits-start_claude, Emits-run_haiku, Emits-run_guardian, Emits-run_nemotron, Emits-start_unit,
  Emits-heartbeat, Emits-exists, Emits-is_dir, Emits-mtime, Emits-load_state, Emits-save_state,
  Emits-load_cowork, Emits-save_cowork, Emits-thread_alive, Emits-proc_running, Emits-kill_proc,
)
