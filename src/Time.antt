-- ===== src/Time.antt =====
-- UTC times as Python's `datetime` has them: microseconds since the first day of year 1, which was
-- a Monday. Overflow past the year 9999 is not modelled.
use az_lab.Prelude.{ℕ, ◌*◌, ◌/◌, ◌%◌}

abbrev pub Time : Type 0
Time = ℕ

abbrev pub minutes : ℕ → ℕ
minutes n = n * 60000000

abbrev pub hours : ℕ → ℕ
hours n = n * 3600000000

abbrev pub days : ℕ → ℕ
days n = n * 86400000000

abbrev pub day : Time → ℕ
day t = t / 86400000000

abbrev pub hour : Time → ℕ
hour t = t % 86400000000 / 3600000000

abbrev pub minute : Time → ℕ
minute t = t % 3600000000 / 60000000

-- t.weekday(): Monday is 0
abbrev pub weekday : Time → ℕ
weekday t = day t % 7

-- What `datetime.fromisoformat` makes of a text.
pub data Stamp : Type 0 where
  aware : Time → Stamp
  naive : Time → Stamp
  unparseable : Stamp
