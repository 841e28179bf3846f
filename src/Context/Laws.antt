-- ===== src/Context/Laws.antt =====
-- What `sanitize_context` keeps of a context.
use az_lab.Context.{
  strip_keys, preserve_keys, is_priority, context_max_chars, with_failure, with_hints, stripped,
  size, not_priority, compressed_context, compress_context, without, rev, capped, sanitize_context,
  evict,
}
use az_lab.Json
use az_lab.Event.{Trace, Env, ok}
use az_lab.Json.{Json, Dict}
use az_lab.Rules.Returns.{
  Returns, Returns-pure, Returns-using, Returns-if, Returns-bind, Returns-bind-Returns,
}
use az_lab.Rules.Inversion.{outcome}
use az_lab.Prelude.{
  ℕ, String, ◌≡◌, refl, ◌∙◌, inl, inr, Bool, true, false, not, ◌&&◌, Option, none, some, List, [],
  ◌∷◌, arith, ◌==◌, eq_iff, ltb, if◌then◌else◌, Bool-cases, keep, All, elem,
}

all_of : (String → Bool) → List String → Bool
all_of p [] = true
all_of p (x ∷ xs) = p x && all_of p xs

all_of-elem :
    (p : String → Bool) (k : String) (xs : List String)
    → all_of p xs ≡ true
    → elem k xs ≡ true
    → p k ≡ true
unfolding all_of
all_of-elem p k [] a e = cc
all_of-elem p k (x ∷ xs) a e = elim (Bool-cases (k == x)) [
  | inl same ↦ let q : k ≡ x = (eq_iff k x).0 same in rw q (ground arith)
  | inr differ ↦ all_of-elem p k xs (ground arith) (ground arith)
]

-- None of the keys that the program writes or strips.
no_clash : String → Bool
unfolding is_priority
no_clash k =
    not (elem k strip_keys)
    && (not ("_retry_hint" == k)
        && (not ("_prior_failure" == k)
            && (not ("_context_compressed" == k) && (not ("_truncated" == k) && is_priority k))))

payload-no_clash : (k : String) → elem k preserve_keys ≡ true → no_clash k ≡ true
unfolding no_clash all_of
payload-no_clash k e = all_of-elem no_clash k preserve_keys refl e

get-set_other :
    (k j : String) (v : Json) (d : Dict)
    → (k == j) ≡ false
    → Json.get j (Json.set k v d) ≡ Json.get j d
get-set_other k j v d e = rw (Json.get-set k j v d, e)

get-kept :
    (p : String → Bool) (k : String) (d : Dict)
    → p k ≡ true
    → Json.get k (Json.keep_keys p d) ≡ Json.get k d
get-kept p k d e = rw (Json.get-keep_keys p k d, e)

All-not_priority : (ks : List String) → All (λ j. is_priority j ≡ false) (keep not_priority ks)
unfolding not_priority
All-not_priority [] = tt
All-not_priority (k ∷ ks) = elim (Bool-cases (is_priority k)) [
  | inl priority ↦ rw priority (All-not_priority ks)
  | inr other ↦ rw other (other, All-not_priority ks)
]

All-rev :
    (ks acc : List String)
    → All (λ j. is_priority j ≡ false) ks
    → All (λ j. is_priority j ≡ false) acc
    → All (λ j. is_priority j ≡ false) (rev acc ks)
unfolding rev
All-rev [] acc a b = b
All-rev (k ∷ ks) acc (a, rest) b = All-rev ks (k ∷ acc) rest (a, b)

module _ (k : String) (payload : elem k preserve_keys ≡ true) where
  priority_key : is_priority k ≡ true
  unfolding no_clash
  priority_key = let c = payload-no_clash k payload in ground arith

  no_clash_key : no_clash k ≡ true
  no_clash_key = payload-no_clash k payload

  get-stripped : (d : Dict) → Json.get k (stripped d) ≡ Json.get k d
  unfolding stripped no_clash
  get-stripped d = let c = no_clash_key in get-kept _ k d (ground arith)

  get-if :
      (b : Bool) (d1 d2 d : Dict)
      → Json.get k d1 ≡ Json.get k d
      → Json.get k d2 ≡ Json.get k d
      → Json.get k (if b then d1 else d2) ≡ Json.get k d
  get-if true d1 d2 d p q = p
  get-if false d1 d2 d p q = q

  get-with_failure : (o : Option String) (d : Dict) → Json.get k (with_failure o d) ≡ Json.get k d
  unfolding with_failure no_clash
  get-with_failure none d = refl
  get-with_failure (some s) d =
      let c = no_clash_key in
      get-if (s == "") d _ d refl (get-set_other "_prior_failure" k _ d (ground arith))

  get-with_hints :
      (n : ℕ) (o : Option String) (d : Dict) → Json.get k (with_hints n o d) ≡ Json.get k d
  unfolding with_hints no_clash
  get-with_hints n o d =
      let c = no_clash_key in
      get-if (ltb 0 n) _ d d
        (get-with_failure o _ ∙ get-set_other "_retry_hint" k _ d (ground arith)) refl

  get-without :
      (j : String) (d : Dict) → is_priority j ≡ false → Json.get k (without j d) ≡ Json.get k d
  unfolding without
  get-without j d e = elim (Bool-cases (k == j)) [
    | inl same ↦ let q : k ≡ j = (eq_iff k j).0 same in let r = priority_key in cc
    | inr differ ↦ get-kept _ k d (rw differ)
  ]

  get-evict :
      (env : Env) (ks : List String) (d : Dict)
      → All (λ j. is_priority j ≡ false) ks
      → Json.get k (evict env ks d) ≡ Json.get k d
  unfolding evict
  get-evict env [] d a = refl
  get-evict env (j ∷ ks) d (a, rest) =
      get-if (ltb context_max_chars (size env d)) _ d d
        (get-evict env ks (without j d) rest ∙ get-without j d a) refl

  get-capped : (env : Env) (d : Dict) → Json.get k (capped env d) ≡ Json.get k d
  unfolding capped no_clash
  get-capped env d =
      let c = no_clash_key in
      let ks = rev [] (keep not_priority (Json.keys d)) in
      let kept =
        get-evict env ks d
          (All-rev (keep not_priority (Json.keys d)) [] (All-not_priority (Json.keys d)) tt) in
      get-if (ltb context_max_chars (size env d)) _ d d
        (get-if (ltb context_max_chars (size env (evict env ks d))) _ (evict env ks d) d
          (get-set_other "_truncated" k _ (evict env ks d) (ground arith) ∙ kept) kept)
        refl

  compressed-Returns :
      (d : Dict) → Returns (λ d'. Json.get k d' ≡ Json.get k d) (compressed_context d)
  unfolding compressed_context no_clash
  compressed-Returns d =
      let c = no_clash_key in
      let kept = λ (v : Json).
        get-set_other "_context_compressed" k v (Json.keep_keys is_priority d) (ground arith)
        ∙ get-kept is_priority k d priority_key in
      search (Returns-bind, Returns-pure, kept)

  compress-Returns : (d : Dict) → Returns (λ d'. Json.get k d' ≡ Json.get k d) (compress_context d)
  unfolding compress_context
  compress-Returns d = search (Returns-bind, Returns-if, Returns-pure, compressed-Returns)

  sanitize-Returns :
      (ctx : Dict) (n : ℕ) (o : Option String)
      → Returns (λ d. Json.get k d ≡ Json.get k ctx) (sanitize_context ctx n o)
  unfolding sanitize_context
  sanitize-Returns ctx n o =
      Returns-bind-Returns (compress_context (with_hints n o (stripped ctx))) _
        (compress-Returns (with_hints n o (stripped ctx)))
        (λ d q.
          Returns-using (λ env. capped env d)
            (λ env.
              get-capped env d ∙ (q ∙ (get-with_hints n o (stripped ctx) ∙ get-stripped ctx))))

-- The keys that later code reads from a context reach the prompt as they were: `sanitize_context`
-- gives them the values that they had, whatever is stripped, summarised or evicted for size.
pub get-sanitize_context :
    (k : String) (ctx : Dict) (attempts : ℕ) (prior : Option String) (env : Env) (h : Trace)
    (d : Dict)
    → elem k preserve_keys ≡ true
    → outcome (sanitize_context ctx attempts prior) env h ≡ ok d
    → Json.get k d ≡ Json.get k ctx
get-sanitize_context k ctx attempts prior env h d payload e =
    (sanitize-Returns k payload ctx attempts prior).returned env h d e
