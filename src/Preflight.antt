-- ===== src/Preflight.antt =====
-- infrastructure/task-queue/poll_queue.py: `_memory_exists`, `preflight_task` and `block_task`.
pub mod Laws
use az_lab.Report.{log_activity, discord_notify}
use az_lab.Text
use az_lab.Json
use az_lab.Json.{Json, Dict}
use az_lab.References.{memory_refs}
use az_lab.Goals.{text_of_json}
use az_lab.Recurring.{context_of}
use az_lab.Exec.{Exec, pure, using, ◌>>=◌, ◌>>◌, catch, update_tasks, select_memory, exists}
use az_lab.Event.{Env}
use az_lab.Queue.{Task, Cond, Assign, text, shown}
use az_lab.Prelude.{
  ◌-◌, String, ◌<>◌, Bool, true, false, not, ◌&&◌, some, List, [], ◌∷◌, ◌++◌, map, ◌==◌, ltb, eqb,
  if◌then◌else◌, or_else, length, take, is_empty, keep, any, elem,
}

abbrev human_gate_markers : List String
human_gate_markers =
    "decision needed" ∷ "decision required" ∷ "jeff to decide" ∷ "needs jeff's decision"
    ∷ "awaiting jeff" ∷ []

abbrev known_hosts : List String
known_hosts =
    "svc-podman-01" ∷ "192.168.1.181" ∷ "proxmox" ∷ "ms-01" ∷ "192.168.1.182" ∷ "ha"
    ∷ "home-assistant" ∷ "192.168.1.161" ∷ "nemoclaw" ∷ "nemoclaw-01" ∷ "192.168.1.183" ∷ "game"
    ∷ "192.168.30.10" ∷ "homebridge" ∷ "192.168.1.159" ∷ "rb5009" ∷ "192.168.1.1" ∷ "crs309"
    ∷ "192.168.99.248" ∷ "adguard" ∷ "192.168.99.2" ∷ "localhost" ∷ "127.0.0.1" ∷ []

-- A lookup that fails reads as present.
unfoldable pub memory_exists : String → Exec Bool
unfolding catch select_memory ◌>>=◌
memory_exists name =
    catch (do rows ← select_memory name; pure (not (is_empty rows))) (λ _. pure true)

-- v not in (None, "", [], {})
pub is_set : Json → Bool
is_set Json.null = false
is_set (Json.str s) = not (s == "")
is_set (Json.arr Json.nil) = false
is_set (Json.obj Json.end) = false
is_set _ = true

-- not task.get("attempt_count") and not task.get("claimed_at")
pub never_run : Task → Bool
never_run t = eqb (or_else t.attempt_count 0) 0 && (text t.claimed_at == "")

unfoldable pub is_gated : Task → Bool
unfolding is_set never_run Json.get
is_gated t = never_run t && is_set (Json.get "action_required" (context_of t))

unfoldable pub has_marker : Task → Bool
unfolding Text.lower Text.contains
has_marker t = any (λ mark. Text.contains mark (Text.lower (text t.title))) human_gate_markers

unfoldable pub for_jeff : Task → Bool
for_jeff t = text t.target == "jeff"

unfoldable pub when : Bool → String → List String
when true reason = reason ∷ []
when false reason = []

-- 1. the human decision gate
unfoldable pub gate_reasons : Env → Task → List String
unfolding is_gated has_marker for_jeff when
gate_reasons env t =
    when (is_gated t)
      "context.action_required is set — this task's deliverable is Jeff's decision, not agent work. Re-file with target='jeff'."
    ++ (when (has_marker t) (
          "title carries a human-decision marker ("
          <> (env.quote (text t.title)
              <> ") — a gate task must be filed target='jeff', not run by the agent."))
        ++ when (for_jeff t) "target='jeff' — not agent-runnable.")

quoted : Env → List String → String
unfolding Text.join
quoted env xs = Text.join ", " (map env.quote (take 5 xs))

-- The references that do not resolve, in order.
unfoldable pub missing_refs : List String → Exec (List String)
unfolding memory_exists ◌>>=◌
missing_refs [] = pure []
missing_refs (r ∷ rs) = do
  found ← memory_exists r
  rest ← missing_refs rs
  pure (if found then rest else r ∷ rest)

-- list(dict.fromkeys(refs)), after those seen so far
unfoldable pub distinct : List String → List String → List String
distinct seen [] = []
distinct seen (r ∷ rs) =
    let rest = distinct (if elem r seen then seen else r ∷ seen) rs in
    if elem r seen then rest else r ∷ rest

unfoldable pub memory_reasons : Env → List String → List String
unfolding quoted Text.show
memory_reasons env [] = []
memory_reasons env missing =
    ("referenced memories do not resolve in the store: "
      <> (quoted env missing
          <> (if ltb 5 (length missing)
              then " (+" <> (Text.show (length missing - 5) <> " more)")
              else "")))
    ∷ []

-- `ctx.get(a) or ctx.get(b)`: one text is a list of one, and only a list is checked.
unfoldable pub declared_list : Env → Dict → String → String → List String
unfolding Json.truthy Json.get Json.items text_of_json Text.strip
declared_list env ctx a b =
    let first = Json.get a ctx in
    elim (if Json.truthy first then first else Json.get b ctx) [
      | Json.str s ↦ Text.strip s ∷ []
      | Json.arr xs ↦ map (λ x. Text.strip (text_of_json env x)) (Json.items xs)
      | _ ↦ []
    ]

unfoldable pub unknown_hosts : List String → List String
unfolding Text.lower
unknown_hosts hosts = keep (λ h. not (h == "") && not (elem (Text.lower h) known_hosts)) hosts

unfoldable pub reason_for : Env → String → List String → List String
unfolding quoted
reason_for env prefix [] = []
reason_for env prefix xs = (prefix <> quoted env xs) ∷ []

-- The absolute paths that do not exist here.
unfoldable pub gone_paths : List String → Exec (List String)
unfolding ◌>>=◌ exists Text.is_prefix
gone_paths [] = pure []
gone_paths (p ∷ ps) =
    let rest = gone_paths ps in
    if Text.is_prefix "/" p
    then (do found ← exists p; gone ← rest; pure (if found then gone else p ∷ gone))
    else rest

-- 2. the memories, and 3. the hosts and paths, after the reasons of the gate
unfoldable pub preflight_rest : Task → List String → Exec (List String)
preflight_rest t gate = do
  names ← using (λ env. distinct [] (memory_refs env t))
  missing ← missing_refs names
  memory ← using (λ env. memory_reasons env missing)
  hosts ← using (λ env.
      reason_for env "context declares unknown host(s): "
        (unknown_hosts (declared_list env (context_of t) "hosts" "host")))
  paths ← using (λ env. declared_list env (context_of t) "paths" "path")
  gone ← gone_paths paths
  missing_paths ←
      using (λ env. reason_for env "context declares path(s) that do not exist on this host: " gone)
  pure (gate ++ (memory ++ (hosts ++ missing_paths)))

-- The reasons why the task is not ready; none means go.
unfoldable pub preflight_task : Task → Exec (List String)
preflight_task t = do gate ← using (λ env. gate_reasons env t); preflight_rest t gate

blocked_text : List String → String
unfolding Text.join
blocked_text reasons =
    "Context preflight failed:\n" <> Text.join "\n" (map (λ r. "  - " <> r) reasons)

-- A guarded PATCH; the reports are made unless it raises, whether or not it changed a row.
unfoldable pub block_task : Task → String → List String → Exec (Unit {0})
unfolding catch ◌>>=◌ update_tasks log_activity discord_notify blocked_text
block_task t current reasons =
    let reason = blocked_text reasons in
    let headed = "Preflight blocked: " <> (shown t.title <> ("\n" <> reason)) in
    do
      done ←
          catch
            (do
              update_tasks (Cond.id_eq t.id ∷ Cond.status_eq current ∷ []) (
                  Assign.status "blocked"
                  ∷ Assign.blocked_reason (some reason)
                  ∷ Assign.failure_mode "dependency"
                  ∷ [])
              pure true)
            (λ _. pure false)
      if done
          then (do log_activity "status" headed (some t.id); discord_notify ("⛔ " <> headed))
          else pure tt
