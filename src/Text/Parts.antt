-- ===== src/Text/Parts.antt =====
-- `strip`, `split` and the joins.
use Prim.Native.Char.{Char, code}
use Prim.Native.String.{◌∷◌ as ◌▸◌}
use az_lab.Prelude.{
  ℕ, zero, suc, ◌-◌, ◌≡◌, refl, String, ◌<>◌, Bool, true, ◌||◌, List, [], ◌∷◌, leb, eqb, keep, ◌==◌,
  not, if◌then◌else◌, ◌&&◌,
}
use az_lab.Text.Slices.{length}
use az_lab.Text.Search.{is_space, is_prefix}

-- s.lstrip()
unfoldable pub lstrip : String → String
unfolding is_space
lstrip String.[] = ""
lstrip (c ▸ s) = let rest = lstrip s in if is_space c then rest else c ▸ s

unfoldable pub is_blank : String → Bool
unfolding is_space
is_blank String.[] = true
is_blank (c ▸ s) = is_space c && is_blank s

-- s.rstrip()
unfoldable pub rstrip : String → String
unfolding is_space is_blank
rstrip String.[] = ""
rstrip (c ▸ s) = let rest = rstrip s in if is_blank (c ▸ s) then "" else c ▸ rest

-- s.strip()
unfoldable pub strip : String → String
unfolding lstrip rstrip
strip s = rstrip (lstrip s)

-- The pieces between the places where `sep` stands; `skip` counts its characters still to pass.
split_go : String → String → ℕ → String → List String
split_go sep cur skip String.[] = cur ∷ []
split_go sep cur (suc skip) (c ▸ s) = split_go sep cur skip s
split_go sep cur zero (c ▸ s) =
    let here = split_go sep "" (length sep - 1) s in
    let further = split_go sep (cur <> (c ▸ "")) zero s in
    if is_prefix sep (c ▸ s) then cur ∷ here else further

-- s.split(sep)
unfoldable pub split_on : String → String → List String
unfolding split_go is_prefix length
split_on sep s = split_go sep "" zero s

words_go : String → String → List String
unfolding is_space
words_go cur String.[] = cur ∷ []
words_go cur (c ▸ s) =
    let here = words_go "" s in
    let further = words_go (cur <> (c ▸ "")) s in if is_space c then cur ∷ here else further

-- s.split()
unfoldable pub words : String → List String
unfolding words_go
words s = keep (λ w. not (w == "")) (words_go "" s)

unfoldable pub is_line_end : Char → Bool
is_line_end c =
    let n = code c in
    (leb 10 n && leb n 13) || (leb 28 n && leb n 30) || eqb n 133 || eqb n 8232 || eqb n 8233

-- s.splitlines()[0], of a text that is not empty
unfoldable pub first_line : String → String
unfolding is_line_end
first_line String.[] = ""
first_line (c ▸ s) = let rest = first_line s in if is_line_end c then "" else c ▸ rest

-- sep.join(xs)
unfoldable pub join : String → List String → String
join sep [] = ""
join sep (x ∷ []) = x
join sep (x ∷ y ∷ xs) = x <> (sep <> join sep (y ∷ xs))

parts_tests :
    (strip "  a b \n" ≡ "a b")
    × (split_on "\n\n" "a\n\nb\n\n" ≡ "a" ∷ "b" ∷ "" ∷ [])
    × (words " apply  supabase migration" ≡ "apply" ∷ "supabase" ∷ "migration" ∷ [])
    × (first_line "one\ntwo" ≡ "one")
    × (join ", " ("a" ∷ "b" ∷ []) ≡ "a, b")
unfolding strip split_on words first_line join
parts_tests = (refl, refl, refl, refl, refl)
