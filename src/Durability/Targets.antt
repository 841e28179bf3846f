-- ===== src/Durability/Targets.antt =====
-- `execstart_targets` and `is_execstart_target`: the files of the repositories that systemd runs.
use az_lab.Keys
use az_lab.Text
use az_lab.Units.{FilePath, same_path, within, relative}
use az_lab.Durability.{Repo}
use az_lab.Prelude.{
  String, ◌≡◌, refl, Bool, ◌&&◌, ◌||◌, Option, none, some, List, [], ◌∷◌, ◌++◌, any, elem, keep,
  if◌then◌else◌,
}

-- What systemctl prints, `none` for a failure, and the two regular expressions on it.
pub record Systemd : Type 0 where
  pub unit_files : Option String
  pub triggers : String → Option String
  pub show : List String → Option String
  -- UNIT_ID_RE and ARGV_RE
  pub unit_id : String → Option String
  pub argvs : String → List String
  -- the real path of a file
  pub resolve_file : String → Option FilePath

abbrev pub Targets : Type 0
Targets = List (FilePath × List String)

is_service : String → Bool
unfolding Text.is_suffix
is_service u = Text.is_suffix ".service" u

is_trigger : String → Bool
unfolding Text.is_suffix
is_trigger u = Text.is_suffix ".timer" u || Text.is_suffix ".socket" u || Text.is_suffix ".path" u

services_in : Option String → Option (List String)
unfolding Text.words is_service
services_in none = none
services_in (some out) = some (keep is_service (Text.words out))

-- The services that a unit starts: a trigger is followed to its own.
started_by : Systemd → List String → Option (List String)
unfolding is_service is_trigger services_in
started_by d [] = some []
started_by d (u ∷ _) =
    if is_service u
    then some (u ∷ [])
    else if is_trigger u
    then services_in (d.triggers u)
    else some []

add_new : List String → List String → List String
add_new [] seen = seen
add_new (c ∷ cs) seen = add_new cs (if elem c seen then seen else seen ++ (c ∷ []))

pub services : Systemd → List String → List String → Option (List String)
unfolding started_by add_new Text.words
services d [] seen = some seen
services d (l ∷ ls) seen = elim (started_by d (Text.words l)) [
  | none ↦ none
  | some cs ↦ services d ls (add_new cs seen)
]

-- targets.setdefault(path, set()).add(unit)
add_target : FilePath → String → Targets → Targets
unfolding same_path
add_target p unit [] = (p, unit ∷ []) ∷ []
add_target p unit ((q, units) ∷ ts) =
    if same_path p q
    then (q, if elem unit units then units else units ++ (unit ∷ [])) ∷ ts
    else (q, units) ∷ add_target p unit ts

add_path : List FilePath → String → Option FilePath → Targets → Targets
unfolding add_target within
add_path roots unit none ts = ts
add_path roots unit (some p) ts = if any (λ r. within r p) roots then add_target p unit ts else ts

add_tokens : Systemd → List FilePath → String → List String → Targets → Targets
unfolding add_path Text.is_prefix
add_tokens d roots unit [] ts = ts
add_tokens d roots unit (tok ∷ toks) ts =
    add_tokens d roots unit toks
      (if Text.is_prefix "/" tok then add_path roots unit (d.resolve_file tok) ts else ts)

add_argvs : Systemd → List FilePath → String → List String → Targets → Targets
unfolding add_tokens Text.words
add_argvs d roots unit [] ts = ts
add_argvs d roots unit (a ∷ as') ts =
    add_argvs d roots unit as' (add_tokens d roots unit (Text.words a) ts)

add_block : Systemd → List FilePath → String → Option String → Targets → Targets
unfolding add_argvs Text.strip
add_block d roots block none ts = ts
add_block d roots block (some unit) ts = add_argvs d roots (Text.strip unit) (d.argvs block) ts

add_blocks : Systemd → List FilePath → List String → Targets → Targets
unfolding add_block
add_blocks d roots [] ts = ts
add_blocks d roots (b ∷ bs) ts = add_blocks d roots bs (add_block d roots b (d.unit_id b) ts)

shown_targets : Systemd → List FilePath → Option String → Targets
unfolding add_blocks Text.split_on
shown_targets d roots none = []
shown_targets d roots (some out) = add_blocks d roots (Text.split_on "\n\n" out) []

of_services : Systemd → List FilePath → Option (List String) → Targets
unfolding shown_targets
of_services d roots none = []
of_services d roots (some []) = []
of_services d roots (some (u ∷ us)) = shown_targets d roots (d.show (u ∷ us))

-- No target where systemd cannot be asked.
of_unit_files : Systemd → List FilePath → Option String → Targets
unfolding of_services services Text.splitlines
of_unit_files d roots none = []
of_unit_files d roots (some out) = of_services d roots (services d (Text.splitlines out) [])

unfoldable pub execstart_targets : Systemd → List FilePath → Targets
unfolding of_unit_files
execstart_targets d roots = of_unit_files d roots d.unit_files

abbrev pub Hit : Type 0
Hit = String × List String

insert_hit : Hit → List Hit → List Hit
unfolding Keys.text_le
insert_hit (p, us) [] = (p, us) ∷ []
insert_hit (p, us) ((q, vs) ∷ hs) =
    let rest = insert_hit (p, us) hs in
    if Keys.text_le p q then (p, us) ∷ (q, vs) ∷ hs else (q, vs) ∷ rest

covers : FilePath → Bool → FilePath → Bool
unfolding same_path within
covers full is_dir t = same_path t full || (is_dir && within full t)

-- The targets at the path or below it, by their paths in the repository.
hits : Repo → FilePath → Bool → Targets → List Hit
unfolding covers within relative insert_hit Text.join Keys.sorted
hits r full is_dir [] = []
hits r full is_dir ((t, units) ∷ ts) =
    let rest = hits r full is_dir ts in
    if covers full is_dir t && within r.root t
    then insert_hit (Text.join "/" (relative r.root t), Keys.sorted units) rest
    else rest

hits_at : Repo → String → Targets → Option FilePath → List Hit
unfolding hits
hits_at r path ts none = []
hits_at r path ts (some full) = hits r full (r.is_dir path) ts

unfoldable pub is_execstart_target : Repo → Targets → String → List Hit
unfolding hits_at
is_execstart_target r ts path = hits_at r path ts (r.resolve path)

-- A timer is followed to the service that it starts.
followed :
    services
      (record {
        unit_files = none;
        triggers = λ u. some "memory.service dream.service";
        show = λ us. none;
        unit_id = λ b. none;
        argvs = λ b. [];
        resolve_file = λ p. none;
      })
      ("dream.timer enabled" ∷ "" ∷ "poll.service enabled" ∷ "dream.service enabled" ∷ [])
      []
    ≡ some ("memory.service" ∷ "dream.service" ∷ "poll.service" ∷ [])
unfolding services
followed = refl
