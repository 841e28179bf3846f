-- ===== src/Cowork.antt =====
-- infrastructure/task-queue/poll_queue.py: `notify_cowork_tasks`.
use az_lab.Text
use az_lab.Routing.{is_internal_housekeeping}
use az_lab.Report.{discord_notify}
use az_lab.Exec.{Exec, pure, ◌>>=◌, ◌>>◌, catch, select_tasks, load_cowork, save_cowork}
use az_lab.Queue.{Task, Cond, Order, text}
use az_lab.Prelude.{
  ◌-◌, String, ◌<>◌, not, some, List, [], ◌∷◌, ◌++◌, map, ltb, if◌then◌else◌, length, take, keep,
  elem,
}

unfoldable pub unseen : List String → List Task → List Task
unseen notified tasks = keep (λ (t : Task). not (elem t.id notified)) tasks

-- The ids that are saved: a set in Python, with the new ones last here.
report_new : List String → List Task → Exec (Unit {0})
unfolding ◌>>=◌ discord_notify save_cowork Text.show Text.join
report_new notified [] = pure tt
report_new notified (t ∷ ts) = do
  let new = t ∷ ts
  let n = length new
  let titles = Text.join ", " (map (λ (t : Task). text t.title) (take 3 new))
  discord_notify (
      "📬 **"
      <> (Text.show n
          <> (" new task(s) waiting for Cowork:** "
              <> (titles
                  <> ((if ltb 3 n then " (+" <> (Text.show (n - 3) <> " more)") else "")
                      <> "\nOpen a claude.ai session to pick them up.")))))
  save_cowork (notified ++ map (λ (t : Task). t.id) new)

report_unseen : List Task → Exec (Unit {0})
unfolding ◌>>=◌ load_cowork unseen report_new
report_unseen [] = pure tt
report_unseen (t ∷ ts) = do notified ← load_cowork; report_new notified (unseen notified (t ∷ ts))

unfoldable pub notify_cowork_tasks : Exec (Unit {0})
unfolding catch ◌>>=◌ select_tasks is_internal_housekeeping report_unseen
notify_cowork_tasks =
    catch
      (do
        tasks ← select_tasks (record {
          conds = Cond.status_eq "pending" ∷ Cond.target_eq "cowork" ∷ [];
          order = Order.created_asc ∷ [];
          limit = some 10;
        })
        report_unseen (keep (λ (t : Task). not (is_internal_housekeeping t)) tasks))
      (λ _. pure tt)
