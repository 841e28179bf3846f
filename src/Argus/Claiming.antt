-- ===== src/Argus/Claiming.antt =====
-- infrastructure/task-queue/argus.py: `_claim_next_for_argus`.
pub mod Laws
use az_lab.Text
use az_lab.Claim.{guarded, is_finished, bounce, claim_patch}
use az_lab.Exec.{Exec, pure, ◌>>=◌, ◌>>◌, now, select_tasks, update_tasks}
use az_lab.Queue.{Task, Cond, Order, Query, text}
use az_lab.Prelude.{
  String, ◌<>◌, Option, none, some, List, [], ◌∷◌, if◌then◌else◌, is_empty, or_else,
}

abbrev pub claimable : Query
claimable = record {
  conds =
      Cond.status_in ("ready" ∷ "pending" ∷ [])
      ∷ Cond.target_in ("claude-code" ∷ "wren" ∷ [])
      ∷ Cond.archived_null
      ∷ [];
  order = Order.priority_asc ∷ Order.created_asc ∷ [];
  limit = some 1;
}

-- An f-string writes NULL as `None`.
abbrev pub status_read : Task → String
status_read t = or_else t.status "None"

-- The claim is lost if the PATCH changed no row.
unfoldable pub take_for_argus : String → Task → Exec (Option Task)
take_for_argus host t = do
  at ← now
  claimed ← update_tasks (guarded t.id (status_read t)) (claim_patch (host <> "/argus") at)
  pure (if is_empty claimed then none else some t)

unfoldable pub claim_top : String → List Task → Exec (Option Task)
claim_top host [] = pure none
claim_top host (t ∷ _) =
    if is_finished t
    then (do bounce "re-dispatch" t (status_read t); pure none)
    else take_for_argus host t

unfoldable pub claim_next_for_argus : String → Exec (Option Task)
claim_next_for_argus host = do tasks ← select_tasks claimable; claim_top host tasks
