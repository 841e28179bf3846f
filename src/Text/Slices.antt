-- ===== src/Text/Slices.antt =====
-- len(s), the slices of a text and str(n).
use Prim.Native.String.{[], ◌∷◌, char_at}
use Prim.Native.String.append
use az_lab.Prelude.{
  ◌≤◌, ℕ, zero, suc, ◌+◌, ◌-◌, ◌/◌, ◌%◌, ◌≤◌, min, String, ◌<>◌, ◌≡◌, refl, ap, arith, ltb,
  if◌then◌else◌,
}

-- len(s)
unfoldable pub length : String → ℕ
length [] = 0
length (c ∷ s) = suc (length s)

-- s[:n]
unfoldable pub take : ℕ → String → String
take zero s = []
take (suc n) [] = []
take (suc n) (c ∷ s) = c ∷ take n s

-- s[n:]
unfoldable pub drop : ℕ → String → String
drop zero s = s
drop (suc n) [] = []
drop (suc n) (c ∷ s) = drop n s

-- s[-n:], for n > 0
unfoldable pub take_last : ℕ → String → String
unfolding length drop
take_last n s = drop (length s - n) s

-- s[a:b]
unfoldable pub slice : ℕ → ℕ → String → String
unfolding take drop
slice a b s = drop a (take b s)

-- str(n), on fuel above the number of digits.
show_digits : ℕ → ℕ → String → String
show_digits zero n acc = acc
show_digits (suc fuel) n acc =
    let acc' = char_at "0123456789" (n % 10) ∷ acc in
    let rest = show_digits fuel (n / 10) acc' in if ltb n 10 then acc' else rest

unfoldable pub show : ℕ → String
unfolding show_digits
show n = show_digits (suc n) n []

pub length-take : (n : ℕ) (s : String) → length (take n s) ≡ min n (length s)
unfolding length take
length-take zero s = omega arith
length-take (suc n) [] = omega arith
length-take (suc n) (c ∷ s) = omega (arith, length-take n s)

pub length-drop : (n : ℕ) (s : String) → length (drop n s) ≡ length s - n
unfolding length drop
length-drop zero s = omega arith
length-drop (suc n) [] = omega arith
length-drop (suc n) (c ∷ s) = omega (arith, length-drop n s)

pub length-append : (s t : String) → length (s <> t) ≡ length s + length t
unfolding length
length-append [] t = rw append.nil (omega arith)
length-append (c ∷ s) t = rw append.cons (omega (arith, length-append s t))

-- A cut leaves the two parts of the text.
pub take-append-drop : (n : ℕ) (s : String) → take n s <> drop n s ≡ s
unfolding take drop
take-append-drop zero s = append.nil s
take-append-drop (suc n) [] = append.nil []
take-append-drop (suc n) (c ∷ s) = rw append.cons (ap (λ t. c ∷ t) (take-append-drop n s))

show_tests : (show 0 ≡ "0") × (show 1207 ≡ "1207")
unfolding show
show_tests = (refl, refl)

pub take-take_append : (n : ℕ) (s t : String) → n ≤ length s → take n (take n s <> t) ≡ take n s
unfolding take length
take-take_append zero s t h = refl
take-take_append (suc n) [] t h = absurd (omega arith)
take-take_append (suc n) (c ∷ s) t h =
    rw append.cons (ap (λ u. c ∷ u) (take-take_append n s t (omega arith)))

pub drop-append : (s t : String) → drop (length s) (s <> t) ≡ t
unfolding drop length
drop-append [] t = append.nil t
drop-append (c ∷ s) t = rw append.cons (drop-append s t)

pub take_last-append : (s t : String) → take_last (length t) (s <> t) ≡ t
unfolding take_last
take_last-append s t =
    let n : length (s <> t) - length t ≡ length s = omega (arith, length-append s t) in
    rw n (drop-append s t)

pub length-take_last : (n : ℕ) (s : String) → n ≤ length s → length (take_last n s) ≡ n
unfolding take_last
length-take_last n s h = omega (arith, length-drop (length s - n) s)

pub append_assoc : (s t u : String) → (s <> t) <> u ≡ s <> (t <> u)
append_assoc [] t u = rw append.nil (rw append.nil)
append_assoc (c ∷ s) t u =
    rw append.cons (rw append.cons (rw append.cons (ap (λ w. c ∷ w) (append_assoc s t u))))
