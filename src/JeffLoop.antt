-- ===== src/JeffLoop.antt =====
-- infrastructure/task-queue/poll_queue.py: `_needs_jeff_input`.
use az_lab.Text
use az_lab.Prelude.{
  ℕ, suc, ◌+◌, ◌-◌, String, ◌≡◌, refl, Bool, false, Option, none, some, List, [], ◌∷◌, ◌==◌,
  if◌then◌else◌,
}

abbrev jeff_input_keywords : List String
jeff_input_keywords =
    "@jeff" ∷ "need your input" ∷ "need your decision" ∷ "need your approval"
    ∷ "need your confirmation" ∷ "need jeff" ∷ "needs jeff" ∷ "your choice" ∷ "your call"
    ∷ "your decision" ∷ "your approval" ∷ "please advise" ∷ "please confirm" ∷ "please approve"
    ∷ "please choose" ∷ "please decide" ∷ "waiting for you" ∷ "waiting for jeff" ∷ "up to you"
    ∷ "your preference" ∷ "decision point" ∷ "requires your" ∷ "require your" ∷ []

-- The alternatives of _JEFF_QUESTION_RE, in order; each is bounded by words on both sides.
abbrev question_phrases : List String
question_phrases =
    "should i" ∷ "should we" ∷ "should claude" ∷ "do you want" ∷ "do you prefer" ∷ "do you need"
    ∷ "do you approve" ∷ "would you like" ∷ "would you prefer" ∷ "would you want" ∷ "which one"
    ∷ "which option" ∷ "which approach" ∷ "which method" ∷ "which path" ∷ "which direction"
    ∷ "can you confirm" ∷ "can you approve" ∷ "can you choose" ∷ "can you decide" ∷ []

-- text[max(0, i - 20): i + n + 60].strip()
around : String → ℕ → ℕ → String
unfolding Text.slice Text.strip
around s i n = Text.strip (Text.slice (i - 20) (i + n + 60) s)

keyword_in : String → String → List String → Option String
unfolding Text.find Text.length around
keyword_in s lower [] = none
keyword_in s lower (k ∷ ks) =
    let rest = keyword_in s lower ks in
    elim (Text.find k lower) [ none ↦ rest | some i ↦ some (around s i (Text.length k)) ]

-- The phrase that stands at a place, and its length.
phrase_at : Bool → String → List String → Option ℕ
unfolding Text.word_at Text.length
phrase_at inside s [] = none
phrase_at inside s (p ∷ ps) =
    if Text.word_at inside p s then some (Text.length p) else phrase_at inside s ps

-- The leftmost match, as its place and its length.
question_in : Bool → ℕ → String → Option (ℕ × ℕ)
unfolding phrase_at Text.is_word
question_in inside i String.[] = none
question_in inside i (String.◌∷◌ c s) =
    let rest = question_in (Text.is_word c) (suc i) s in
    elim (phrase_at inside (String.◌∷◌ c s) question_phrases) [ none ↦ rest | some n ↦ some (i, n) ]

unfoldable pub needs_jeff_input : String → Option String
unfolding keyword_in question_in Text.lower around
needs_jeff_input s =
    if s == "" then none else elim (keyword_in s (Text.lower s) jeff_input_keywords) [
      | some snippet ↦ some snippet
      | none ↦ elim (question_in false 0 (Text.lower s)) [
        | none ↦ none
        | some (i, n) ↦ some (around s i n)
      ]
    ]

needs_jeff_input_tests :
    (needs_jeff_input "All done. Should I merge it?" ≡ some "All done. Should I merge it?")
    × (needs_jeff_input "All done." ≡ none)
unfolding needs_jeff_input
needs_jeff_input_tests = (refl, refl)
