-- ===== src/References.antt =====
-- infrastructure/task-queue/poll_queue.py: the memories that a task refers to, as `preflight_task`
-- collects them, with `_WIKILINK_RE`.
use Prim.Native.Char.{code}
use az_lab.Text
use az_lab.Json
use az_lab.Json.{Json}
use az_lab.Goals.{text_of_json}
use az_lab.Recurring.{context_of}
use az_lab.Event.{Env}
use az_lab.Queue.{Task, text}
use az_lab.Prelude.{
  ℕ, zero, suc, ◌+◌, String, ◌<>◌, ◌≡◌, refl, not, ◌&&◌, Option, none, some, List, [], ◌∷◌, ◌++◌,
  map, ◌==◌, eqb, if◌then◌else◌, keep,
}

-- `([^\]|]+?)\]\]` at the front of a text: what the brackets hold.
link_body : String → String → Option String
link_body acc String.[] = none
link_body acc (String.◌∷◌ c s) =
    let further = link_body (acc <> String.◌∷◌ c "") s in
    if eqb (code c) b']'
    then (if not (acc == "") && Text.is_prefix "]" s then some acc else none)
    else if eqb (code c) b'|'
    then none
    else further

-- findall, with the number of characters that the last match still covers
links_go : ℕ → String → List String
unfolding link_body Text.is_prefix Text.drop Text.length
links_go skip String.[] = []
links_go (suc skip) (String.◌∷◌ c s) = links_go skip s
links_go zero (String.◌∷◌ c s) =
    let plain = links_go zero s in
    if Text.is_prefix "[[" (String.◌∷◌ c s)
    then elim (link_body "" (Text.drop 1 s)) [
      | none ↦ plain
      | some body ↦ body ∷ links_go (Text.length body + 3) s
    ]
    else plain

unfoldable pub wikilinks : String → List String
unfolding links_go
wikilinks s = links_go zero s

text_ref : Json → List String
unfolding Text.strip
text_ref (Json.str s) = if Text.strip s == "" then [] else Text.strip s ∷ []
text_ref _ = []

list_refs : Env → Json → List String
unfolding Json.items text_of_json Text.strip
list_refs env (Json.arr xs) =
    keep (λ r. not (r == "")) (map (λ x. Text.strip (text_of_json env x)) (Json.items xs))
list_refs env _ = []

unfoldable pub memory_refs : Env → Task → List String
unfolding text_ref list_refs wikilinks Text.strip Json.get
memory_refs env t =
    let ctx = context_of t in
    text_ref (Json.get "research_memory" ctx)
    ++ (text_ref (Json.get "sibling_research_memory" ctx)
        ++ (list_refs env (Json.get "memory_refs" ctx)
            ++ (list_refs env (Json.get "referenced_memories" ctx)
                ++ (list_refs env (Json.get "memories" ctx)
                    ++ keep (λ m. not (m == ""))
                        (map Text.strip (wikilinks (text t.description)))))))

wikilinks_test : wikilinks "see [[a b]], [[x|y]] and [[c]]" ≡ "a b" ∷ "c" ∷ []
unfolding wikilinks
wikilinks_test = refl
