-- ===== src/Examples/Claude.antt =====
-- The theorems on `run_claude` at a concrete session.
use az_lab.Event.{Session, ok}
use az_lab.Claude.{run_claude}
use az_lab.Claude.Laws.{Shows, run_claude-Shows}
use az_lab.Rules.Inversion.{outcome}
use az_lab.Examples.{calm, job}
use az_lab.Prelude.{◌≡◌, refl, none, some, []}

rotated : outcome (run_claude "Rotate." (some job.id) none none) calm [] ≡ ok "Rotated."
unfolding run_claude
rotated = refl

run_claude-Shows_example :
    (s : Session) × (calm.run_claude [] "Rotate." none none ≡ ok s) × Shows calm s "Rotated."
run_claude-Shows_example =
    run_claude-Shows "Rotate." (some job.id) none none calm [] "Rotated." rotated
