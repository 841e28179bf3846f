-- ===== src/Containers/Timers.antt =====
-- `active_timers`: the two kinds of timers that systemd lists.
use Prim.Native.Char.{code}
use Prim.Native.String.{[] as empty, ◌∷◌ as ◌▸◌}
use az_lab.Text
use az_lab.Prelude.{
  String, ◌-◌, ◌≡◌, refl, Bool, true, ◌&&◌, ◌||◌, List, [], ◌∷◌, leb, eqb, if◌then◌else◌,
}

-- The ids of podman's own units, and the names of the fallback's.
pub record Timers : Type 0 where
  pub ids : List String
  pub names : List String

is_hex : String → Bool
is_hex empty = true
is_hex (c ▸ s) =
    ((leb 48 (code c) && leb (code c) 57) || (leb 97 (code c) && leb (code c) 102)) && is_hex s

abbrev fallback : String
fallback = "podman-healthcheck@"

-- What a unit without its `.timer` adds.
unfoldable pub add_stem : String → Timers → Timers
unfolding is_hex Text.length Text.is_prefix Text.drop
add_stem stem t =
    if eqb (Text.length stem) 64 && is_hex stem
    then record t { ids = stem ∷ t.ids }
    else if Text.is_prefix fallback stem
    then record t { names = Text.drop 19 stem ∷ t.names }
    else t

unfoldable pub add_unit : List String → Timers → Timers
unfolding add_stem Text.is_suffix Text.length Text.take
add_unit [] t = t
add_unit (unit ∷ _) t =
    if Text.is_suffix ".timer" unit then add_stem (Text.take (Text.length unit - 6) unit) t else t

timers_of : List String → Timers
unfolding add_unit Text.words
timers_of [] = record { ids = []; names = [] }
timers_of (l ∷ ls) = add_unit (Text.words l) (timers_of ls)

-- The output of systemctl list-units.
unfoldable pub active_timers : String → Timers
unfolding timers_of Text.splitlines
active_timers out = timers_of (Text.splitlines out)

timer_tests :
    active_timers
      "podman-healthcheck@cadvisor.timer loaded active\nabc.timer loaded\n\nx.service loaded"
    ≡ record { ids = []; names = "cadvisor" ∷ [] }
unfolding active_timers
timer_tests = refl
