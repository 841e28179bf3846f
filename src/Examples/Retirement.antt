-- ===== src/Examples/Retirement.antt =====
-- The theorem on the retirement of memories at a concrete input.
use az_lab.Time.{aware, hours}
use az_lab.Retirement.{Run, World, rows, pass}
use az_lab.Retirement.Laws.{retires, IsAllowed, pass-IsAllowed}
use az_lab.Prelude.{ℕ, ◌≡◌, refl, true, false, some, none, [], ◌∷◌}

abbrev run_of : ℕ → Run
run_of n = record { tag = "nightly"; score = some n; created_at = "2026-09-01T03:00:00Z" }

-- The newest run has no score yet; of the others, the newest is within a tenth of the median.
abbrev world : World
world = record {
  runs = rows (
      record { tag = "half done"; score = none; created_at = "" }
      ∷ run_of 815
      ∷ run_of 900
      ∷ run_of 800
      ∷ run_of 950
      ∷ []);
  answers = λ r. true;
  now = hours 100;
  from_iso = λ s. aware (hours 90);
  show_score = λ n. "0.8";
  show_hours = λ n. "10.0";
}

-- One that has dropped by more.
abbrev worse : World
worse = record world { runs = rows (run_of 700 ∷ run_of 900 ∷ run_of 800 ∷ []) }

live : retires (pass world true 25) ≡ true
unfolding pass retires
live = refl

held : retires (pass worse true 25) ≡ false
unfolding pass retires
held = refl

pass-IsAllowed_example : IsAllowed world true 25 (pass world true 25)
pass-IsAllowed_example = pass-IsAllowed world true 25 live
