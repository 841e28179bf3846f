-- ===== src/Guardian.antt =====
-- infrastructure/task-queue/poll_queue.py: the Guardian audit, `_guardian_directive`,
-- `guardian_audit`, `store_guardian_audit` and `run_guardian`. The call of the model and the parse of
-- its answer are behind `run_guardian` of the environment.
pub mod Prompt
pub mod Evidence
use az_lab.Text
use az_lab.Guardian.Prompt.{guardian_prompt}
use az_lab.Guardian.Evidence.{work_evidence}
use az_lab.Json
use az_lab.Json.{Json}
use az_lab.Recurring.{context_of}
use az_lab.Clip.{guardian_result_excerpt}
use az_lab.Report.{log_activity, discord_notify}
use az_lab.Exec.{Exec, pure, ◌>>=◌, ◌>>◌, catch, insert_audit, run_guardian}
use az_lab.Queue.{Task, Audit, text, or_text, shown}
use az_lab.Prelude.{
  String, ◌<>◌, not, ◌&&◌, Option, none, some, [], ◌∷◌, ◌==◌, if◌then◌else◌, is_empty, elem,
}

unfoldable pub guardian_directive : Task → String
unfolding Text.strip Text.take Json.text_of Json.get
guardian_directive t =
    let note =
      Text.strip
        (or_text (text t.jeff_notes) (Json.text_of (Json.get "jeff_notes" (context_of t)))) in
    if note == "" then "(none — Jeff added no note to this task)" else Text.take 600 note

unfoldable pub store_guardian_audit : String → Audit → Exec (Unit {0})
unfolding catch insert_audit Text.take
store_guardian_audit id audit =
    catch (insert_audit (some id) (record audit { summary = Text.take 500 audit.summary })) (λ _.
      catch
        (insert_audit none (record audit {
          summary = Text.take 500 ("[task " <> (Text.take 8 id <> (" missing] " <> audit.summary)));
        }))
        (λ _. pure tt))

unfoldable pub alert : Task → String → Audit → Exec (Unit {0})
unfolding discord_notify Text.join Text.take Text.upper
alert t id audit =
    let flag_names = if is_empty audit.flags then "unspecified" else Text.join ", " audit.flags in
    discord_notify (
      "🛡\u{fe0f} **Guardian Alert ["
      <> (Text.upper audit.severity
          <> ("]:** "
              <> (text t.title
                  <> ("\n**Flags:** "
                      <> (flag_names
                          <> ("\n**Summary:** "
                              <> (audit.summary <> ("\nTask: `" <> (Text.take 8 id <> "`"))))))))))

unfoldable pub audited : Task → String → Option Audit → Exec String
unfolding ◌>>=◌ store_guardian_audit log_activity alert
audited t id none = pure "none"
audited t id (some audit) = do
  store_guardian_audit id audit
  log_activity "guardian" ("Guardian [" <> (audit.severity <> ("]: " <> audit.summary))) (some id)
  if not audit.clean && elem audit.severity ("medium" ∷ "high" ∷ "critical" ∷ [])
      then alert t id audit
      else pure tt
  pure audit.severity

-- The description is cut, the result is excerpted.
unfoldable pub prompt_for : Task → String → String → String
unfolding guardian_directive guardian_result_excerpt Text.take guardian_prompt
prompt_for t result evidence =
    guardian_prompt (shown t.title) (Text.take 600 (text t.description)) (guardian_directive t)
      (guardian_result_excerpt result) evidence

-- An audit that fails is none.
unfoldable pub guardian_audit : Task → String → Exec (Option Audit)
unfolding ◌>>=◌ catch run_guardian prompt_for work_evidence
guardian_audit t result = do
  evidence ← work_evidence t
  catch (do a ← run_guardian (prompt_for t result evidence); pure (some a)) (λ _. pure none)

-- The severity; an audit that fails counts as "none".
unfoldable pub run_guardian_on : Task → String → String → Exec String
unfolding ◌>>=◌ guardian_audit audited
run_guardian_on t result id = do audit ← guardian_audit t result; audited t id audit
