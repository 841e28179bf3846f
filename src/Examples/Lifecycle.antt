-- ===== src/Examples/Lifecycle.antt =====
-- The theorem on the sweep of the episodes at a concrete input.
use az_lab.Json.{Json, num, obj, arr, end, field, nil, cons}
use az_lab.Lifecycle.{World, Counts, answered, given_up, failed, reported, report, sweep}
use az_lab.Lifecycle.Laws.{SameNews, report_news}
use az_lab.Prelude.{ℕ, ◌≡◌, refl, ◌↔◌, Option, none, some, [], ◌∷◌}

abbrev counts : ℕ → Counts
counts n = record {
  reaped = n;
  open_total = 2;
  open_stale = 0;
  oldest = "0.1";
  abandoned = n;
  total = 287;
}

int_of : Json → Option ℕ
int_of (num n) = some n
int_of _ = none

abbrev lab : World
lab = record {
  threshold = "6 hours";
  floor = 8;
  reap = answered (arr (cons (obj (field "reaped" (num 3) end)) nil));
  health = answered (obj (field "open_total" (num 2) (field "episodes_total" (num 287) end)));
  to_int = int_of;
  to_float = λ v. some "0.0";
}

-- Three reaped, then nine: one digit each.
report_news_example :
    (report lab (counts 9) (report lab (counts 3) []).key).posted ≡ none
    ↔ SameNews lab (counts 3) (counts 9)
report_news_example = report_news lab (counts 3) (counts 9) []

lifecycle_tests :
    ((report lab (counts 9) (report lab (counts 3) []).key).posted ≡ none)
    × ((report lab (counts 10) ("REAPED" ∷ "mag1" ∷ [])).key ≡ "REAPED" ∷ "mag2" ∷ [])
    × (sweep (record lab { health = failed }) [] ≡ given_up)
unfolding report sweep
lifecycle_tests = (refl, refl, refl)

swept :
    sweep lab ("REAPED" ∷ "mag1" ∷ [])
    ≡ reported (record { posted = none; key = "REAPED" ∷ "mag1" ∷ [] })
unfolding sweep int_of
swept = refl
