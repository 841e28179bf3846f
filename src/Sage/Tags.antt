-- ===== src/Sage/Tags.antt =====
-- infrastructure/task-queue/sage.py: `_add_tags`.

pub mod Laws
use az_lab.Prelude.{String, Option, List, [], ◌∷◌, ◌++◌, if◌then◌else◌, or_else, elem}

-- One tag, put last where it is missing.
abbrev pub add_tag : String → List String → List String
add_tag t tags = if elem t tags then tags else tags ++ (t ∷ [])

unfoldable pub add_each : List String → List String → List String
add_each tags [] = tags
add_each tags (t ∷ ts) = add_each (add_tag t tags) ts

unfoldable pub add_tags : Option (List String) → List String → List String
unfolding add_each
add_tags existing new = add_each (or_else existing []) new
