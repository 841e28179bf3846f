-- ===== src/Json.antt =====
-- JSON values and Python dicts with text keys, as `task_queue.context` holds them.
use az_lab.Prelude.{
  ℕ, String, ◌≡◌, refl, inl, inr, Bool, true, false, not, ◌||◌, List, [], ◌∷◌, arith, ◌==◌, eq_iff,
  eqb, if◌then◌else◌, Bool-cases,
}

mutual
  pub data Json : Type 0 where
    null : Json
    bool : Bool → Json
    num : ℕ → Json
    str : String → Json
    arr : Items → Json
    obj : Dict → Json

  pub data Items : Type 0 where
    nil : Items
    cons : Json → Items → Items

  pub data Dict : Type 0 where
    end : Dict
    field : String → Json → Dict → Dict

-- bool(v)
unfoldable pub truthy : Json → Bool
truthy null = false
truthy (bool b) = b
truthy (num n) = not (eqb n 0)
truthy (str s) = not (s == "")
truthy (arr nil) = false
truthy (arr (cons x xs)) = true
truthy (obj end) = false
truthy (obj (field k v d)) = true

-- d.get(k): a missing key reads as null
unfoldable pub get : String → Dict → Json
get k end = null
get k (field j v d) = if j == k then v else get k d

-- k in d
unfoldable pub has : String → Dict → Bool
has k end = false
has k (field j v d) = j == k || has k d

-- d[k] = v: a key keeps its place, a new one comes last
unfoldable pub set : String → Json → Dict → Dict
set k v end = field k v end
set k v (field j w d) = if j == k then field j v d else field j w (set k v d)

-- {k: v for k, v in d.items() if p(k)}
unfoldable pub keep_keys : (String → Bool) → Dict → Dict
keep_keys p end = end
keep_keys p (field k v d) = let rest = keep_keys p d in if p k then field k v rest else rest

unfoldable pub keys : Dict → List String
keys end = []
keys (field k v d) = k ∷ keys d

unfoldable pub items : Items → List Json
items nil = []
items (cons x xs) = x ∷ items xs

-- `(d.get(k) or "")` where the value is a text or missing
unfoldable pub text_of : Json → String
text_of (str s) = s
text_of _ = ""

pub get-set :
    (k j : String) (v : Json) (d : Dict) → get j (set k v d) ≡ (if k == j then v else get j d)
unfolding get set
get-set k j v end = refl
get-set k j v (field i w d) = ground (arith, eq_iff k j, eq_iff i k, eq_iff i j, get-set k j v d)

pub get-keep_keys :
    (p : String → Bool) (k : String) (d : Dict)
    → get k (keep_keys p d) ≡ (if p k then get k d else null)
unfolding get keep_keys
get-keep_keys p k end = ground arith
get-keep_keys p k (field j v d) = elim (Bool-cases (j == k)) [
  | inl same ↦ rw ((eq_iff j k).0 same) (ground (arith, get-keep_keys p k d, eq_iff k k))
  | inr differ ↦ ground (arith, get-keep_keys p k d)
]
