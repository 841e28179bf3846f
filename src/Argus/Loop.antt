-- ===== src/Argus/Loop.antt =====
-- infrastructure/task-queue/argus.py: the body of the loop of `main`. `dispatch` is the part of it
-- that may raise; the thread of the task that it hands out is `Argus.Worker.worker`.
pub mod Laws
pub mod Refines
use az_lab.Time.{Time}
use az_lab.Argus.{Registry, max_workers, heartbeat_interval, sweep_interval, spawn}
use az_lab.Argus.Claiming.{claim_next_for_argus}
use az_lab.Argus.Stalls.{check_stalls}
use az_lab.Recover.{recover_stuck_tasks}
use az_lab.Stale.{sweep_stale_tasks}
use az_lab.Waiting.{sweep_waiting_tasks}
use az_lab.Routing.{route_auto_tasks}
use az_lab.Cowork.{notify_cowork_tasks}
use az_lab.Backlog.{auto_queue_from_goals}
use az_lab.Exec.{Exec, pure, ◌>>=◌, ◌>>◌, catch, now, heartbeat}
use az_lab.Queue.{Task}
use az_lab.Prelude.{
  ◌-◌, String, Bool, true, false, Option, none, some, ltb, leb, if◌then◌else◌, length,
}

pub record LoopState : Type 0 where
  pub last_heartbeat : Time
  pub last_sweep : Time
  pub running : Registry

-- Each sweep is isolated.
unfoldable pub sweeps : Exec (Unit {0})
sweeps = do
  catch recover_stuck_tasks (λ _. pure tt)
  catch sweep_stale_tasks (λ _. pure tt)
  catch sweep_waiting_tasks (λ _. pure tt)

unfoldable pub promote : Option Task → Exec (Option Task)
promote (some t) = pure (some t)
promote none = do auto_queue_from_goals; pure none

-- A claim that fails is no task.
unfoldable pub dispatch : String → Exec (Option Task)
dispatch host = do
  route_auto_tasks
  notify_cowork_tasks
  task ← catch (claim_next_for_argus host) (λ _. pure none)
  promote task

unfoldable pub spawned : Option Task → Registry → Exec Registry
spawned none running = pure running
spawned (some t) running = do at ← now; pure (spawn t at running)

unfoldable pub fill : String → Registry → Exec Registry
fill host running =
    if ltb (length running) max_workers
    then (do
      task ← catch (dispatch host) (λ _. do heartbeat "error"; pure none)
      spawned task running)
    else pure running

unfoldable pub orchestrate : String → LoopState → Exec LoopState
orchestrate host s = do
  at ← now
  let beat = leb heartbeat_interval (at - s.last_heartbeat)
  let clean = leb sweep_interval (at - s.last_sweep)
  if beat then heartbeat "active" else pure tt
  if clean then sweeps else pure tt
  running ← check_stalls s.running
  filled ← fill host running
  pure (record {
    last_heartbeat = if beat then at else s.last_heartbeat;
    last_sweep = if clean then at else s.last_sweep;
    running = filled;
  })
