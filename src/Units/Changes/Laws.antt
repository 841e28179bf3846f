-- ===== src/Units/Changes/Laws.antt =====
-- When the audit posts.
use az_lab.Units.Audit.{Located}
use az_lab.Keys.{sorted}
use az_lab.Keys.Laws.{report_changes, report-key}
use az_lab.Units.Changes.{key_of, message_of, report}
use az_lab.Prelude.{String, ◌≡◌, refl, ◌↔◌, none, List, [], ◌∷◌, arith}

-- Where nothing is posted although the key differs, there is neither a finding nor an earlier key.
silent : (fs : List Located) (prev : List String) → message_of fs prev ≡ none → key_of fs ≡ prev
unfolding message_of key_of sorted
silent [] [] e = refl
silent [] (k ∷ ks) e = ground arith
silent (f ∷ fs) prev e = ground arith

-- Nothing is posted exactly if the findings have the key of the previous audit, and in every case
-- that key is what is kept for the next audit.
report-changes :
    (fs : List Located) (prev : List String)
    → ((report fs prev).posted ≡ none ↔ key_of fs ≡ prev) × ((report fs prev).key ≡ key_of fs)
unfolding report
report-changes fs prev = (
  report_changes (key_of fs) prev (message_of fs prev) (silent fs prev),
  report-key (key_of fs) prev (message_of fs prev),
)
