-- ===== src/Exec/Requests.antt =====
-- One action for each thing that the program asks of the world.
use az_lab.Json.{Json}
use az_lab.Time.{Time}
use az_lab.Queue.{Task, NewTask, Goal, Cond, Query, Assign, Activity, Note, EpisodeEnd, Audit}
use az_lab.Event.{Event, Command, Session, ok}
use az_lab.Exec.Monad.{Exec}
use az_lab.Prelude.{ℕ, String, Bool, Option, List, ◌∷◌}

-- datetime.now(timezone.utc)
unfoldable pub now : Exec Time
now env h = (ok (env.clock h), Event.read_clock ∷ h)

-- api_request("GET", "task_queue", …)
unfoldable pub select_tasks : Query → Exec (List Task)
select_tasks q env h = (env.select_tasks h q, Event.select_tasks q ∷ h)

-- api_request("PATCH", "task_queue?…", …): the rows that were changed
unfoldable pub update_tasks : List Cond → List Assign → Exec (List Task)
update_tasks cs p env h = (env.update_tasks h cs p, Event.update_tasks cs p ∷ h)

unfoldable pub insert_task : NewTask → Exec (List String)
insert_task t env h = (env.insert_task h t, Event.insert_task t ∷ h)

unfoldable pub insert_activity : String → String → Option String → Exec (Unit {0})
insert_activity kind content id env h =
    (env.insert_activity h kind content id, Event.insert_activity kind content id ∷ h)

unfoldable pub select_activity : String → Option Time → ℕ → Exec (List Activity)
select_activity id since limit env h =
    (env.select_activity h id since limit, Event.select_activity id since limit ∷ h)

unfoldable pub send : String → Exec (Unit {0})
send s env h = (env.send h s, Event.send s ∷ h)

unfoldable pub select_goals : Query → Exec (List Goal)
select_goals q env h = (env.select_goals h q, Event.select_goals q ∷ h)

unfoldable pub update_goal : String → List Assign → Exec (Unit {0})
update_goal id p env h = (env.update_goal h id p, Event.update_goal id p ∷ h)

unfoldable pub insert_episode : String → String → Exec (Option String)
insert_episode id input env h = (env.insert_episode h id input, Event.insert_episode id input ∷ h)

unfoldable pub update_episode : String → EpisodeEnd → Exec (Unit {0})
update_episode id p env h = (env.update_episode h id p, Event.update_episode id p ∷ h)

unfoldable pub select_skills : Exec (List (String × List String))
select_skills env h = (env.select_skills h, Event.select_skills ∷ h)

unfoldable pub skill_outcome : String → Bool → String → Exec (Unit {0})
skill_outcome name success note env h =
    (env.skill_outcome h name success note, Event.skill_outcome name success note ∷ h)

unfoldable pub recurring_result : String → Option String → Exec (Unit {0})
recurring_result id result env h =
    (env.recurring_result h id result, Event.recurring_result id result ∷ h)

unfoldable pub select_memory : String → Exec (List String)
select_memory name env h = (env.select_memory h name, Event.select_memory name ∷ h)

unfoldable pub select_notes : String → Exec (List String)
select_notes id env h = (env.select_notes h id, Event.select_notes id ∷ h)

unfoldable pub insert_note : Note → Exec (Unit {0})
insert_note n env h = (env.insert_note h n, Event.insert_note n ∷ h)

unfoldable pub insert_audit : Option String → Audit → Exec (Unit {0})
insert_audit id a env h = (env.insert_audit h id a, Event.insert_audit id a ∷ h)

-- subprocess.Popen of claude, and what it prints until it ends
unfoldable pub start_claude : String → Option String → Option Json → Exec Session
start_claude prompt model timeout env h =
    (env.run_claude h prompt model timeout, Event.run_claude prompt model timeout ∷ h)

unfoldable pub run_haiku : String → Exec String
run_haiku prompt env h = (env.run_haiku h prompt, Event.run_haiku prompt ∷ h)

unfoldable pub run_guardian : String → Exec Audit
run_guardian prompt env h = (env.run_guardian h prompt, Event.run_guardian prompt ∷ h)

unfoldable pub run_nemotron : String → Exec String
run_nemotron prompt env h = (env.run_nemotron h prompt, Event.run_nemotron prompt ∷ h)

unfoldable pub start_unit : String → Exec (Unit {0})
start_unit unit env h = (env.start_unit h unit, Event.start_unit unit ∷ h)

unfoldable pub heartbeat : String → Exec (Unit {0})
heartbeat status env h = (ok tt, Event.heartbeat status ∷ h)

-- os.path.exists, os.path.getmtime
unfoldable pub exists : String → Exec Bool
exists path env h = (ok (env.exists h path), Event.stat path ∷ h)

-- os.path.isdir
unfoldable pub is_dir : String → Exec Bool
is_dir path env h = (ok (env.is_dir h path), Event.stat path ∷ h)

unfoldable pub mtime : String → Exec Time
mtime path env h = (env.mtime h path, Event.stat path ∷ h)

-- The file of the times at which stale tasks were reported.
unfoldable pub load_state : Exec (List (String × String))
load_state env h = (ok (env.load_state h), Event.load_state ∷ h)

unfoldable pub save_state : List (String × String) → Exec (Unit {0})
save_state s env h = (ok tt, Event.save_state s ∷ h)

-- The file of the ids of the tasks that Cowork was told of.
unfoldable pub load_cowork : Exec (List String)
load_cowork env h = (ok (env.load_cowork h), Event.load_cowork ∷ h)

unfoldable pub save_cowork : List String → Exec (Unit {0})
save_cowork ids env h = (ok tt, Event.save_cowork ids ∷ h)

-- thread.is_alive(), proc.poll() is None, and proc.kill()
unfoldable pub thread_alive : String → Exec Bool
thread_alive id env h = (ok (env.thread_alive h id), Event.probe id ∷ h)

unfoldable pub proc_running : String → Exec Bool
proc_running pid env h = (env.proc_running h pid, Event.probe pid ∷ h)

unfoldable pub kill_proc : String → Exec (Unit {0})
kill_proc pid env h = (env.kill h pid, Event.kill pid ∷ h)

unfoldable pub run_command : List String → Option String → Exec Command
run_command args input env h = (env.run_command h args input, Event.run_command args input ∷ h)

unfoldable pub read_file : String → Exec (Option String)
read_file path env h = (env.read_file h path, Event.read_file path ∷ h)

unfoldable pub write_file : String → String → Exec (Unit {0})
write_file path body env h = (env.write_file h path body, Event.write_file path body ∷ h)

-- PATCH scheduled_activity?id=eq.…: the columns that are written
unfoldable pub patch_row : String → List (String × Option String) → Exec (Unit {0})
patch_row id p env h = (env.patch_row h id p, Event.patch_row id p ∷ h)

unfoldable pub audit_row : String → String → String → Option String → Exec (Unit {0})
audit_row id name action notes env h =
    (env.audit_row h id name action notes, Event.audit_row id name action notes ∷ h)

unfoldable pub record_run : String → String → String → String → Option ℕ → Exec (Unit {0})
record_run name status summary at duration env h = (
  env.record_run h name status summary at duration,
  Event.record_run name status summary at duration ∷ h,
)
