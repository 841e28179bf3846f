-- ===== src/Scheduler/Systemd/Schedule.antt =====
-- scripts/scheduled_control_daemon.py: the schedule that a unit's files come to, in
-- `systemd_current_schedule`, and the drop-in that `systemd_write_dropin` writes.
pub mod RoundTrip
use Prim.Native.Char.{code}
use Prim.Native.String.{◌∷◌ as ◌▸◌}
use az_lab.Text
use az_lab.Prelude.{
  String, ◌<>◌, ◌≡◌, refl, Bool, ◌||◌, Option, none, some, List, [], ◌∷◌, ◌==◌, eqb, if◌then◌else◌,
}

-- A setting of a timer.
pub record Directive : Type 0 where
  pub name : String
  pub value : String

-- [ \t]*
unfoldable pub skip_blanks : String → String
skip_blanks String.[] = ""
skip_blanks (c ▸ s) =
    let rest = skip_blanks s in if eqb (code c) 32 || eqb (code c) 9 then rest else c ▸ s

unfoldable pub after_equals : String → Option String
unfolding skip_blanks
after_equals String.[] = none
after_equals (c ▸ s) = if eqb (code c) 61 then some (skip_blanks s) else none

-- ^NAME[ \t]*=[ \t]*(.*)$
unfoldable pub assigned : String → String → Option String
unfolding Text.is_prefix Text.drop Text.length after_equals skip_blanks
assigned name line =
    if Text.is_prefix name line
    then after_equals (skip_blanks (Text.drop (Text.length name) line))
    else none

abbrev pub with_value : Option String → List String → List String
with_value none rest = rest
with_value (some v) rest = if Text.strip v == "" then rest else Text.strip v ∷ rest

-- The values of the lines that assign one which is not blank.
unfoldable pub values : String → List String → List String
unfolding assigned Text.strip
values name [] = []
values name (l ∷ ls) = let rest = values name ls in with_value (assigned name l) rest

unfoldable pub last_of : List String → Option String
last_of [] = none
last_of (x ∷ []) = some x
last_of (x ∷ y ∷ xs) = last_of (y ∷ xs)

-- A calendar comes before an interval.
unfoldable pub encoded : Option String → Option String → Option String
encoded (some v) act = some ("oncalendar:" <> v)
encoded none (some v) = some ("every:" <> v)
encoded none none = none

unfoldable pub effective_schedule : String → Option String
effective_schedule txt =
    let lines = Text.lf_lines txt in
    encoded (last_of (values "OnCalendar" lines)) (last_of (values "OnUnitActiveSec" lines))

unfoldable pub directive_of : String → Option Directive
unfolding Text.is_prefix Text.drop Text.strip
directive_of desired =
    if Text.is_prefix "oncalendar:" desired
    then some (record { name = "OnCalendar"; value = Text.strip (Text.drop 11 desired) })
    else if Text.is_prefix "every:" desired
    then some (record { name = "OnUnitActiveSec"; value = Text.strip (Text.drop 6 desired) })
    else none

-- The empty assignment clears what is inherited.
unfoldable pub dropin_body : Directive → String
dropin_body d =
    "# Managed by scheduled_control_daemon — do not edit manually."
    <> ("\n"
        <> ("[Timer]"
            <> ("\n" <> ((d.name <> "=") <> ("\n" <> ((d.name <> ("=" <> d.value)) <> "\n"))))))

schedule_tests :
    (effective_schedule
        "[Timer]\nOnCalendar = daily\n# x\n[Timer]\nOnCalendar=\nOnCalendar=Mon 03:00\n"
      ≡ some "oncalendar:Mon 03:00")
    × (effective_schedule "[Timer]\nOnBootSec=1\n" ≡ none)
unfolding effective_schedule encoded last_of values assigned Text.lf_lines Text.strip
schedule_tests = (refl, refl)
