-- ===== src/Text/Fields.antt =====
-- `split(None, n)`, `splitlines` and the lines of a regular expression.
use Prim.Native.Char.{Char, code}
use Prim.Native.String.{◌∷◌ as ◌▸◌}
use az_lab.Prelude.{
  ℕ, zero, suc, ◌≡◌, refl, String, Bool, false, ◌&&◌, List, [], ◌∷◌, eqb, ◌==◌, if◌then◌else◌,
}
use az_lab.Text.Search.{is_space}
use az_lab.Text.Parts.{lstrip, is_line_end}

-- The text up to its first white space, and from there on.
word_of : String → String
unfolding is_space
word_of String.[] = ""
word_of (c ▸ s) = let rest = word_of s in if is_space c then "" else c ▸ rest

after_word : String → String
unfolding is_space
after_word String.[] = ""
after_word (c ▸ s) = let rest = after_word s in if is_space c then c ▸ s else rest

-- s.split(None, n): at most n cuts
unfoldable pub fields : ℕ → String → List String
unfolding lstrip word_of after_word
fields zero s = let rest = lstrip s in if rest == "" then [] else rest ∷ []
fields (suc n) s =
    let rest = lstrip s in
    let others = fields n (after_word rest) in if rest == "" then [] else word_of rest ∷ others

-- A character in front of the first line.
unfoldable pub glue : Char → List String → List String
glue c [] = (c ▸ "") ∷ []
glue c (l ∷ ls) = (c ▸ l) ∷ ls

-- The flag says that a carriage return has just ended a line.
splitlines_go : Bool → String → List String
unfolding is_line_end glue
splitlines_go cr String.[] = []
splitlines_go cr (c ▸ s) =
    let same = splitlines_go false s in
    let next = splitlines_go (eqb (code c) 13) s in
    if cr && eqb (code c) 10 then same else if is_line_end c then "" ∷ next else glue c same

-- s.splitlines()
unfoldable pub splitlines : String → List String
unfolding splitlines_go
splitlines s = splitlines_go false s

-- The lines between line feeds, as `^` and `$` with re.M see them.
unfoldable pub lf_lines : String → List String
unfolding glue
lf_lines String.[] = "" ∷ []
lf_lines (c ▸ s) = let rest = lf_lines s in if eqb (code c) 10 then "" ∷ rest else glue c rest

fields_tests :
    (fields 2 " 0  3 * * *" ≡ "0" ∷ "3" ∷ "* * *" ∷ [])
    × (splitlines "a\r\nb\n\nc\n" ≡ "a" ∷ "b" ∷ "" ∷ "c" ∷ [])
    × (lf_lines "a\n" ≡ "a" ∷ "" ∷ [])
unfolding fields splitlines lf_lines
fields_tests = (refl, refl, refl)
