-- ===== src/Routing/Laws.antt =====
-- Where tasks are sent.
use az_lab.Text
use az_lab.Routing.{
  routing_targets, route_by_keywords, named_target, route_via_nemotron, required, route_one,
  route_auto_tasks,
}
use az_lab.Rules.{Adds, Emits, Emits-lift, Emits-bind, emits_rules}
use az_lab.Rules.Returns.{Returns, Returns-pure, Returns-catch, Returns-bind, Emits-bind-Returns}
use az_lab.Rules.Each.{request_rules}
use az_lab.Event.{Event, Trace, Env}
use az_lab.Exec.{pure, lift, ◌>>◌, for_each, update_tasks}
use az_lab.Queue.{Task, Cond, Assign, text}
use az_lab.Prelude.{
  String, ◌≡◌, refl, inl, inr, Bool, true, false, Option, none, some, List, [], ◌∷◌, arith, eq_iff,
  if◌then◌else◌, Bool-cases, or_else, elem,
}

-- A PATCH of `task_queue` gives one row one of the four targets.
abbrev pub IsRouted : Event → Type 0
IsRouted (Event.update_tasks (Cond.id_eq i ∷ []) (Assign.target s ∷ [])) =
    elem s routing_targets ≡ true
IsRouted (Event.update_tasks _ _) = ⊥
IsRouted (Event.insert_task t) = ⊥
IsRouted _ = Unit

-- A target that is named is one of the four.
IsTarget : Option String → Type 0
IsTarget none = Unit
IsTarget (some s) = elem s routing_targets ≡ true

named_target-elem :
    (answer : String) (ts : List String) (s : String)
    → named_target answer ts ≡ some s
    → elem s ts ≡ true
unfolding named_target
named_target-elem answer [] s e = cc
named_target-elem answer (t ∷ ts) s e = elim (Bool-cases (Text.contains t answer)) [
  | inl found ↦ let q : t ≡ s = ground arith in ground (arith, eq_iff s t)
  | inr absent ↦ ground (arith, named_target-elem answer ts s)
]

named_target-IsTarget :
    (answer : String) (o : Option String) → named_target answer routing_targets ≡ o → IsTarget o
unfolding IsTarget
named_target-IsTarget answer none e = tt
named_target-IsTarget answer (some s) e = named_target-elem answer routing_targets s e

elem-if :
    (b : Bool) (x y : String) (xs : List String)
    → elem x xs ≡ true
    → elem y xs ≡ true
    → elem (if b then x else y) xs ≡ true
elem-if true x y xs p q = p
elem-if false x y xs p q = q

route_by_keywords-elem : (a b : String) → elem (route_by_keywords a b) routing_targets ≡ true
unfolding route_by_keywords
route_by_keywords-elem a b = search elem-if

nemotron-Returns : (a b : String) → Returns IsTarget (route_via_nemotron a b)
unfolding route_via_nemotron IsTarget
nemotron-Returns a b =
    let named = λ (answer : String).
      named_target-IsTarget answer (named_target answer routing_targets) refl in
    search (Returns-catch, Returns-bind, Returns-pure, named, tt)

nemotron-IsRouted : (a b : String) → Emits IsRouted (route_via_nemotron a b)
unfolding route_via_nemotron
nemotron-IsRouted a b = search (emits_rules, request_rules)

chosen :
    (o : Option String) (a b : String)
    → IsTarget o
    → elem (or_else o (route_by_keywords a b)) routing_targets ≡ true
unfolding IsTarget
chosen none a b i = route_by_keywords-elem a b
chosen (some s) a b i = i

set_target-IsRouted :
    (t : Task) (description : String) (o : Option String)
    → IsTarget o
    → Emits IsRouted (do
      update_tasks
          (Cond.id_eq t.id ∷ [])
          (Assign.target (or_else o (route_by_keywords (text t.title) description)) ∷ [])
      pure tt)
set_target-IsRouted t description o i =
    let c = chosen o (text t.title) description i in search (emits_rules, request_rules, c)

one-IsRouted : (t : Task) → Emits IsRouted (route_one t)
unfolding route_one
one-IsRouted t = Emits-bind (lift (required t.description)) _ (Emits-lift _) (λ description.
    Emits-bind-Returns (route_via_nemotron (text t.title) description) _
      (nemotron-Returns (text t.title) description) (nemotron-IsRouted (text t.title) description)
      (set_target-IsRouted t description))

each-IsRouted : (ts : List Task) → Emits IsRouted (for_each ts route_one)
unfolding for_each
each-IsRouted [] = search emits_rules
each-IsRouted (t ∷ ts) = Emits-bind (route_one t) _ (one-IsRouted t) (λ _. each-IsRouted ts)

-- The routing of tasks writes nothing of `task_queue` but targets, and each of them is one of the
-- four that an executor reads, whatever the model answers.
pub route_auto_tasks-IsRouted : (env : Env) (h : Trace) → Adds IsRouted h (route_auto_tasks env h).1
unfolding route_auto_tasks
route_auto_tasks-IsRouted env h =
    let e : Emits IsRouted route_auto_tasks = search (emits_rules, request_rules, each-IsRouted) in
    e.at env h
