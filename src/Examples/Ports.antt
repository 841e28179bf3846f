-- ===== src/Examples/Ports.antt =====
-- The theorem on the port sync at a concrete input.
use az_lab.Json.{num, obj, end, field}
use az_lab.Ports.{Call, set_preferences, World, exit, sync}
use az_lab.Ports.Laws.{Ends, sync-Ends}
use az_lab.Prelude.{
  ℕ, String, ◌≡◌, refl, ◌==◌, Bool, true, false, none, some, List, [], ◌∷◌, if◌then◌else◌, elem,
}

was_set : List Call → Bool
was_set [] = false
was_set (set_preferences p ∷ h) = true
was_set (c ∷ h) = was_set h

answers : List Call → List String → ℕ × String
unfolding was_set
answers h args = (
  0,
  if elem "inspect" args
      then "running"
      else if elem "gluetun" args
      then "52459"
      else if was_set h
      then "new"
      else "old",
)

-- qBittorrent listens on the port of last week, until it is told.
abbrev downloads : World
downloads = record {
  podman = answers;
  parse = λ s. some (obj (field "listen_port" (num (if s == "new" then 52459 else 59165)) end));
  to_int = λ v. elim v [ num n ↦ some n | _ ↦ none ];
}

sync-Ends_example : Ends downloads [] (sync downloads [])
sync-Ends_example = sync-Ends downloads []

sync_tests : (sync downloads []).0 ≡ exit 0
unfolding sync answers
sync_tests = refl
