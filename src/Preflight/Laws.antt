-- ===== src/Preflight/Laws.antt =====
-- What a task that the preflight lets pass is not.
use az_lab.Preflight.{
  is_gated, has_marker, for_jeff, when, gate_reasons, preflight_rest, preflight_task,
}
use az_lab.Rules.Returns.{Returns, Returns-pure, Returns-bind}
use az_lab.Rules.Inversion.{after, outcome, bind-ok}
use az_lab.Exec.{using}
use az_lab.Event.{Trace, Env, ok}
use az_lab.Queue.{Task}
use az_lab.Prelude.{String, ◌≡◌, refl, Bool, true, false, List, [], ◌∷◌, ◌++◌}

append-nil : (xs ys : List String) → xs ++ ys ≡ [] → xs ≡ []
append-nil [] ys e = refl
append-nil (x ∷ xs) ys e = cc

append-nil_right : (xs ys : List String) → xs ++ ys ≡ [] → ys ≡ []
append-nil_right [] ys e = e
append-nil_right (x ∷ xs) ys e = cc

when-nil : (b : Bool) (r : String) → when b r ≡ [] → b ≡ false
unfolding when
when-nil true r e = cc
when-nil false r e = refl

-- The task is no question to Jeff: no decision is asked of him before its first run, its title is not
-- marked as one, and it is not addressed to him.
pub record IsAgentWork (t : Task) : Type 0 where
  pub not_gated : is_gated t ≡ false
  pub not_marked : has_marker t ≡ false
  pub not_for_jeff : for_jeff t ≡ false

gate_reasons-IsAgentWork : (env : Env) (t : Task) → gate_reasons env t ≡ [] → IsAgentWork t
unfolding gate_reasons
gate_reasons-IsAgentWork env t e =
    let rest = append-nil_right (when (is_gated t) _) _ e in
    record {
      not_gated = when-nil (is_gated t) _ (append-nil (when (is_gated t) _) _ e);
      not_marked = when-nil (has_marker t) _ (append-nil (when (has_marker t) _) _ rest);
      not_for_jeff = when-nil (for_jeff t) _ (append-nil_right (when (has_marker t) _) _ rest);
    }

checked-Returns :
    (t : Task) (gate : List String) → Returns (λ rs. rs ≡ [] → gate ≡ []) (preflight_rest t gate)
unfolding preflight_rest
checked-Returns t gate = search (Returns-bind, Returns-pure, append-nil) depth 14

-- A task for which the preflight gives no reason is work for the agent: no decision of Jeff's is asked
-- before its first run, its title is not marked as a decision, and it is not addressed to him.
preflight_task-IsAgentWork :
    (t : Task) (env : Env) (h : Trace) → outcome (preflight_task t) env h ≡ ok [] → IsAgentWork t
unfolding preflight_task using
preflight_task-IsAgentWork t env h e =
    let (gate, q, e1) =
      bind-ok (using (λ env. gate_reasons env t)) (preflight_rest t) env h []
        (after (preflight_task t) env h) cc in
    let h1 = after (using (λ env. gate_reasons env t)) env h in
    let returned : outcome (preflight_rest t gate) env h1 ≡ ok [] = cc in
    let none_left : gate ≡ [] = (checked-Returns t gate).returned env h1 [] returned refl in
    gate_reasons-IsAgentWork env t cc
