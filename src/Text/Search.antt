-- ===== src/Text/Search.antt =====
-- `in`, `find`, `startswith`, `lower`, and the word-bounded search of the regular expressions.
use Prim.Native.Char.{Char, code}
use Prim.Native.String.{[], ◌∷◌, char_at}
use Prim.Native.String.append
use az_lab.Prelude.{
  ℕ, suc, ◌-◌, ◌≡◌, refl, arith, String, ◌<>◌, ap, Bool, true, false, not, ◌&&◌, ◌||◌, Option, none,
  some, leb, eqb, if◌then◌else◌,
}
use az_lab.Text.Slices.{length, drop}

-- c.isspace()
unfoldable pub is_space : Char → Bool
is_space c =
    let n = code c in
    (leb 9 n && leb n 13)
    || (leb 28 n && leb n 32)
    || eqb n 133
    || eqb n 160
    || eqb n 5760
    || (leb 8192 n && leb n 8202)
    || eqb n 8232
    || eqb n 8233
    || eqb n 8239
    || eqb n 8287
    || eqb n 12288

-- `\w` on ASCII: a letter, a digit or an underscore.
unfoldable pub is_word : Char → Bool
is_word c =
    let n = code c in
    (leb 97 n && leb n 122) || (leb 65 n && leb n 90) || (leb 48 n && leb n 57) || eqb n 95

lower_char : Char → Char
lower_char c =
    let n = code c in
    if leb 65 n && leb n 90 then char_at "abcdefghijklmnopqrstuvwxyz" (n - 65) else c

-- s.lower()
unfoldable pub lower : String → String
unfolding lower_char
lower [] = []
lower (c ∷ s) = lower_char c ∷ lower s

pub lower-append : (s t : String) → lower (s <> t) ≡ lower s <> lower t
unfolding lower
lower-append [] t = rw append.nil (rw append.nil refl)
lower-append (c ∷ s) t =
    rw append.cons (rw append.cons (ap (λ u. lower_char c ∷ u) (lower-append s t)))

upper_char : Char → Char
upper_char c =
    let n = code c in
    if leb 97 n && leb n 122 then char_at "ABCDEFGHIJKLMNOPQRSTUVWXYZ" (n - 97) else c

-- s.upper()
unfoldable pub upper : String → String
unfolding upper_char
upper [] = []
upper (c ∷ s) = upper_char c ∷ upper s

-- s.startswith(t), with the pattern first
unfoldable pub is_prefix : String → String → Bool
is_prefix [] s = true
is_prefix (p ∷ t) [] = false
is_prefix (p ∷ t) (c ∷ s) = eqb (code p) (code c) && is_prefix t s

pub is_prefix_self : (t u : String) → is_prefix t (t <> u) ≡ true
unfolding is_prefix
is_prefix_self [] u = refl
is_prefix_self (p ∷ t) u = rw append.cons (ground (arith, is_prefix_self t u))

-- s.endswith(t), with the ending first
unfoldable pub is_suffix : String → String → Bool
unfolding is_prefix length drop
is_suffix t s = leb (length t) (length s) && is_prefix t (drop (length s - length t) s)

-- s.find(t): where the first occurrence begins
unfoldable pub find : String → String → Option ℕ
unfolding is_prefix
find t [] = if is_prefix t [] then some 0 else none
find t (c ∷ s) =
    let later : Option ℕ = elim (find t s) [ none ↦ none | some i ↦ some (suc i) ] in
    if is_prefix t (c ∷ s) then some 0 else later

-- t in s
unfoldable pub contains : String → String → Bool
unfolding is_prefix
contains t [] = is_prefix t []
contains t (c ∷ s) = is_prefix t (c ∷ s) || contains t s

starts_word : String → Bool
unfolding is_word
starts_word [] = false
starts_word (c ∷ s) = is_word c

-- Whether `t` stands at the front of `s` as whole words.
unfoldable pub word_at : Bool → String → String → Bool
unfolding starts_word is_prefix length drop
word_at inside t s = not inside && is_prefix t s && not (starts_word (drop (length t) s))

-- re.search(rf"(?<!\w){re.escape(t)}(?!\w)", s); the flag says that a word character stands before.
search_word : Bool → String → String → Bool
unfolding is_word word_at
search_word inside t [] = word_at inside t []
search_word inside t (c ∷ s) = word_at inside t (c ∷ s) || search_word (is_word c) t s

unfoldable pub has_word : String → String → Bool
unfolding search_word
has_word t s = search_word false t s

search_tests :
    (find "b," "ab, b, c" ≡ some 1)
    × (contains "Vm" (lower "VMware vm") ≡ false)
    × (has_word "vm" "vmware" ≡ false)
    × (has_word "vm" "the vm." ≡ true)
unfolding find contains has_word lower
search_tests = (refl, refl, refl, refl)
