-- ===== src/Sage/Review.antt =====
-- infrastructure/task-queue/sage.py: `post_evaluate_pending_eval`. The minute of an approval is read
-- off `isoformat`.
pub mod Laws
use az_lab.Text
use az_lab.Json
use az_lab.Json.{Json, Dict}
use az_lab.Clip.{result_max_chars}
use az_lab.Recurring.{context_of}
use az_lab.Routing.{is_internal_housekeeping}
use az_lab.Sage.Judgement.{
  result_looks_incomplete, result_needs_review, is_deployable_change, has_verification_proof,
}
use az_lab.Report.{log_activity, discord_notify}
use az_lab.Outcomes.{by_id, headline, mark_completed, mark_pending_jeff_action}
use az_lab.Exec.{Exec, pure, using, ◌>>=◌, ◌>>◌, for_each, now, select_tasks, update_tasks}
use az_lab.Queue.{Task, Cond, Order, Query, Assign, text, shown}
use az_lab.Prelude.{
  ℕ, String, ◌<>◌, Bool, true, false, Option, none, some, List, [], ◌∷◌, ltb, if◌then◌else◌, length,
}

-- REVIEW_GATE_STATUS
abbrev pub review_gate_status : String
review_gate_status = "pending_jeff_action"

-- What is to become of a result, by the first test that answers.
pub data Verdict : Type 0 where
  housekeeping approved : Verdict
  incomplete gated suggests : String → Verdict

unfoldable pub no_gate : Option String → Verdict
no_gate none = Verdict.approved
no_gate (some reason) = Verdict.suggests reason

unfoldable pub gate_or : Bool → Option String → Verdict → Verdict
gate_or proof none next = next
gate_or true (some signal) next = next
gate_or false (some signal) next = Verdict.gated signal

unfoldable pub incomplete_or : Option String → Verdict → Verdict
incomplete_or none next = next
incomplete_or (some reason) next = Verdict.incomplete reason

unfoldable pub verdict : Task → Verdict
verdict t =
    let result = text t.result in
    if is_internal_housekeeping t
    then Verdict.housekeeping
    else incomplete_or (result_looks_incomplete result) (
        gate_or (has_verification_proof result) (is_deployable_change t result)
          (no_gate (result_needs_review result)))

-- result[:_RESULT_MAX_CHARS] if len(result) > _RESULT_MAX_CHARS else result
unfoldable pub stored_head : String → String
stored_head s = if ltb result_max_chars (Text.length s) then Text.take result_max_chars s else s

abbrev pub gate_note : String → String
gate_note signal =
    "\n\n---\n**Sage "
    <> ("verify-gate:** result claims to change `"
        <> (signal
            <> "` but lacks explicit verification proof (curl/HTTP 200, build success, live URL check, etc.). Confirm the change is actually live before approving."))

-- The context with the summary and the action that Jeff is asked for.
unfoldable pub merged_context : Task → String → String → Dict
merged_context t summary action =
    Json.set "action_required" (Json.str action)
      (Json.set "context_summary" (Json.str summary) (context_of t))

abbrev pub gate_patch : Task → String → String → String → List Assign
gate_patch t stored summary action =
    Assign.status review_gate_status
    ∷ Assign.result (some stored)
    ∷ Assign.target "jeff"
    ∷ Assign.context (merged_context t summary action)
    ∷ []

unfoldable pub approval_note : String → String
approval_note iso =
    "\n\n---\n**Sage "
    <> ("eval ("
        <> (Text.take 10 iso
            <> (" "
                <> (Text.slice 11 16 iso
                    <> " UTC):** ✅ Approved — result complete, no deploy gate triggered, no unresolved suggestions."))))

unfoldable pub carry_out : Task → Verdict → Exec (Unit {0})
carry_out t Verdict.housekeeping = do
  mark_completed t.id (text t.result) t.goal_id false
  log_activity "status" "Sage: housekeeping auto-completed (never Jeff-gated)" (some t.id)
carry_out t (Verdict.incomplete reason) = do
  mark_pending_jeff_action t.id (text t.result)
      ("Result appears incomplete: " <> Text.take 100 reason) (text t.title)
  log_activity "status" ("Sage: incomplete → Jeff (" <> (Text.take 80 reason <> ")")) (some t.id)
carry_out t (Verdict.gated signal) = do
  update_tasks (by_id t.id) (
      gate_patch t (stored_head (text t.result) <> gate_note signal)
        ("Verify-gate: confirm `"
          <> (signal <> "` change is actually live (no curl/build proof in result)"))
        ("Verify the " <> (signal <> " change is live, then approve or send back.")))
  log_activity "status"
      ("Sage: verify-gate → " <> (review_gate_status <> (" (" <> (signal <> ")")))) (some t.id)
  discord_notify (
      "🧪 **Verify before approve:** "
      <> (shown t.title
          <> ("\nTouches `" <> (signal <> "` — confirm it's actually live, not just claimed."))))
carry_out t (Verdict.suggests reason) = do
  update_tasks (by_id t.id) (
      gate_patch t (stored_head (text t.result)) ("Review-gate: " <> Text.take 140 reason)
        "Read the suggestions/plan in the result, then approve or redirect.")
  log_activity "status"
      ("Sage: suggestions detected → "
        <> (review_gate_status <> (" (" <> (Text.take 80 reason <> ")"))))
      (some t.id)
  discord_notify (
      "👀 **Review needed:** "
      <> (shown t.title
          <> ("\nResult contains suggestions/plan — `"
              <> (Text.take 100 reason <> "`\nCheck task details and approve or redirect."))))
carry_out t Verdict.approved = do
  at ← now
  note ← using (λ env. approval_note (env.isoformat at))
  mark_completed t.id (text t.result <> note) t.goal_id false
  discord_notify
      ("✅ **Sage approved:** " <> (shown t.title <> (" — " <> headline 100 "done" (text t.result))))
  log_activity "status" "Sage: result approved → completed" (some t.id)

unfoldable pub evaluate_one : Task → Exec (Unit {0})
evaluate_one t = carry_out t (verdict t)

abbrev pub to_review : ℕ → Query
to_review batch = record {
  conds = Cond.status_eq "pending_eval" ∷ [];
  order = Order.priority_asc ∷ Order.updated_asc ∷ [];
  limit = some batch;
}

unfoldable pub post_evaluate_pending_eval : ℕ → Exec ℕ
post_evaluate_pending_eval batch = do
  rows ← select_tasks (to_review batch)
  for_each rows evaluate_one
  pure (length rows)
