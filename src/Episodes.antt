-- ===== src/Episodes.antt =====
-- infrastructure/task-queue/poll_queue.py: `start_episode` and `end_episode`.
use az_lab.Text
use az_lab.Exec.{Exec, pure, ◌>>=◌, catch, now, insert_episode, update_episode}
use az_lab.Queue.{Task, text}
use az_lab.Prelude.{ℕ, String, ◌<>◌, Option, none, some, List, [], ◌∷◌, ◌==◌, if◌then◌else◌, elem}

unfoldable pub start_episode : Task → Exec (Option String)
unfolding catch insert_episode Text.take Text.strip
start_episode t =
    let input =
      Text.take 800 (
        Text.strip
          (Text.take 200 (text t.title) <> ("\n" <> Text.take 600 (text t.description)))) in
    catch (insert_episode t.id input) (λ _. pure none)

abbrev pub episode_statuses : List String
episode_statuses = "in_progress" ∷ "completed" ∷ "failed" ∷ "partial" ∷ []

-- _EPISODE_STATUS_MAP sends each of these to `partial`, and a status that is in neither is too.
abbrev mapped_statuses : List String
mapped_statuses =
    "pending_jeff_action" ∷ "pending_eval" ∷ "paused" ∷ "blocked" ∷ "escalated" ∷ "waiting" ∷ []

unfoldable pub episode_status : String → String
episode_status s =
    if elem s episode_statuses then s else if elem s mapped_statuses then "partial" else "partial"

-- The queue's status is kept in the outcome where the episode's differs.
pub episode_outcome : String → String → Option String → Option String
episode_outcome status ep_status outcome =
    if ep_status == status
    then outcome
    else if text outcome == ""
    then some ("[" <> (status <> "]"))
    else some ("[" <> (status <> ("] " <> text outcome)))

-- A text that is written only if it is not empty, cut at a limit.
cut : ℕ → Option String → Option String
unfolding Text.take
cut n none = none
cut n (some s) = if s == "" then none else some (Text.take n s)

end_open : String → String → Option String → Option String → Exec (Unit {0})
unfolding catch now update_episode ◌>>=◌ episode_status episode_outcome cut
end_open id status summary outcome =
    let ep_status = episode_status status in
    catch
      (do
        t ← now
        update_episode id (record {
          status = ep_status;
          ended_at = t;
          summary = cut 1000 summary;
          outcome = cut 1000 (episode_outcome status ep_status outcome);
        }))
      (λ _. pure tt)

unfoldable pub end_episode :
    Option String → String → Option String → Option String → Exec (Unit {0})
unfolding end_open pure
end_episode none status summary outcome = pure tt
end_episode (some id) status summary outcome =
    if id == "" then pure tt else end_open id status summary outcome
