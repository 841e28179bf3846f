-- ===== src/Cron.antt =====
-- infrastructure/task-queue/poll_queue.py, `_next_cron_str`: when a recurring task runs next.
pub mod Laws
use Prim.Native.Char.{code}
use az_lab.Time.{Time, days, hours, minutes, day, hour, minute, weekday}
use az_lab.Text
use az_lab.Prelude.{
  ℕ, ◌+◌, ◌-◌, ◌*◌, ◌%◌, String, Bool, true, false, ◌&&◌, Option, none, some, List, [], ◌∷◌, ◌==◌,
  ltb, leb, eqb, if◌then◌else◌,
}

-- The digits of `int(s)`, with single underscores between them; the flag says that a digit stands before.
int_digits : ℕ → Bool → String → Option ℕ
int_digits acc after_digit String.[] = if after_digit then some acc else none
int_digits acc after_digit (String.◌∷◌ c s) =
    let n = code c in
    let digit = int_digits (acc * 10 + (n - 48)) true s in
    let underscore = int_digits acc false s in
    if leb 48 n && leb n 57 then digit else if eqb n b'_' && after_digit then underscore else none

abbrev signed : Bool → Option ℕ → Option (Bool × ℕ)
signed negative none = none
signed negative (some n) = some (negative, n)

-- int(s) of ASCII text without spaces, as a sign and a size; `none` is the ValueError.
parse_int : String → Option (Bool × ℕ)
unfolding int_digits
parse_int String.[] = none
parse_int (String.◌∷◌ c s) =
    if eqb (code c) b'-'
    then signed true (int_digits 0 false s)
    else if eqb (code c) b'+'
    then signed false (int_digits 0 false s)
    else signed false (int_digits 0 false (String.◌∷◌ c s))

-- A value for `replace`, which refuses what is out of range.
below : ℕ → Option (Bool × ℕ) → Option ℕ
below limit none = none
below limit (some (true, n)) = if eqb n 0 then some 0 else none
below limit (some (false, n)) = if ltb n limit then some n else none

-- int(s) % 7, which is never negative
mod_seven : Option (Bool × ℕ) → Option ℕ
mod_seven none = none
mod_seven (some (true, n)) = some ((7 - n % 7) % 7)
mod_seven (some (false, n)) = some (n % 7)

-- now.replace(minute=…, hour=…, second=0, microsecond=0)
at_clock : Time → ℕ → ℕ → Time
at_clock now h m = days (day now) + hours h + minutes m

-- The first such time after now.
daily_at : Time → ℕ → ℕ → Time
unfolding at_clock
daily_at now h m =
    let candidate = at_clock now h m in if leb candidate now then candidate + days 1 else candidate

-- (target_dow - candidate.weekday() - 1) % 7, where Sunday is day 0 of cron and day 6 of Python
days_ahead : ℕ → Time → ℕ
days_ahead target candidate = (target + 13 - weekday candidate) % 7

pub next_at : Time → ℕ → ℕ → Option ℕ → Time
unfolding daily_at days_ahead
next_at now h m none = daily_at now h m
next_at now h m (some target) =
    let candidate = daily_at now h m in candidate + days (days_ahead target candidate)

-- A field that is `*` takes the default.
cron_field : Option ℕ → (Option (Bool × ℕ) → Option ℕ) → String → Option ℕ
unfolding parse_int
cron_field default read part = if part == "*" then default else read (parse_int part)

next_of_fields : Time → Option ℕ → Option ℕ → Bool → Option ℕ → Option Time
unfolding next_at
next_of_fields now none h any_day dow = none
next_of_fields now (some m) none any_day dow = none
next_of_fields now (some m) (some h) true dow = some (next_at now h m none)
next_of_fields now (some m) (some h) false none = none
next_of_fields now (some m) (some h) false (some target) = some (next_at now h m (some target))

next_of_parts : Time → List String → Option Time
unfolding next_of_fields cron_field below mod_seven
next_of_parts now (m ∷ h ∷ _ ∷ _ ∷ dow ∷ []) =
    next_of_fields now (cron_field (some (minute now)) (below 60) m)
      (cron_field (some (hour now)) (below 24) h) (dow == "*") (cron_field none mod_seven dow)
next_of_parts now _ = none

-- `none` where the schedule is not recognised.
unfoldable pub next_cron : Time → String → Option Time
unfolding next_of_parts Text.words Text.strip
next_cron now schedule =
    if schedule == "daily"
    then some (now + days 1)
    else if schedule == "weekly"
    then some (now + days 7)
    else next_of_parts now (Text.words (Text.strip schedule))
