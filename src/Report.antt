-- ===== src/Report.antt =====
-- infrastructure/task-queue/poll_queue.py: the best-effort reports, `log_activity` and
-- `discord_notify`. A failed report is swallowed.
use az_lab.Exec.{Exec, pure, catch, insert_activity, send}
use az_lab.Prelude.{String, Option}

unfoldable pub log_activity : String → String → Option String → Exec (Unit {0})
unfolding catch pure insert_activity
log_activity kind content id = catch (insert_activity kind content id) (λ _. pure tt)

-- The bot and the webhook behind it are one channel, `send`.
unfoldable pub discord_notify : String → Exec (Unit {0})
unfolding catch pure send
discord_notify message = catch (send message) (λ _. pure tt)
