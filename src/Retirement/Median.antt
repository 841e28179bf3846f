-- ===== src/Retirement/Median.antt =====
-- What the median of the earlier scores says of them.
use az_lab.Retirement.{insert_score, sort, nth, twice_median, regressed}
use az_lab.Prelude.{
  ℕ, zero, suc, ◌+◌, ◌-◌, ◌*◌, ◌/◌, ◌%◌, ◌≤◌, ◌<◌, ◌≡◌, refl, ap, ◌∙◌, inl, inr, Bool, true, false,
  List, [], ◌∷◌, Bool-cases, arith, ltb, leb, eqb, if◌then◌else◌, length, All, ◌&&◌, ◌&&◌,
}

-- How many of the scores pass a test.
pub count : (ℕ → Bool) → List ℕ → ℕ
count p [] = 0
count p (x ∷ xs) = (if p x then 1 else 0) + count p xs

count-insert :
    (p : ℕ → Bool) (x : ℕ) (ys : List ℕ)
    → count p (insert_score x ys) ≡ (if p x then 1 else 0) + count p ys
unfolding insert_score count
count-insert p x [] = refl
count-insert p x (y ∷ ys) = elim (Bool-cases (leb x y)) [
  | inl le ↦ rw le refl
  | inr more ↦ rw more (rw (count-insert p x ys) (omega arith))
]

count-sort : (p : ℕ → Bool) (xs : List ℕ) → count p (sort xs) ≡ count p xs
unfolding sort count
count-sort p [] = refl
count-sort p (x ∷ xs) =
    count-insert p x (sort xs) ∙ ap (λ n. (if p x then 1 else 0) + n) (count-sort p xs)

length-insert : (x : ℕ) (ys : List ℕ) → length (insert_score x ys) ≡ suc (length ys)
unfolding insert_score
length-insert x [] = refl
length-insert x (y ∷ ys) = elim (Bool-cases (leb x y)) [
  | inl le ↦ rw le refl
  | inr more ↦ rw more (ap suc (length-insert x ys))
]

length-sort : (xs : List ℕ) → length (sort xs) ≡ length xs
unfolding sort
length-sort [] = refl
length-sort (x ∷ xs) = length-insert x (sort xs) ∙ ap suc (length-sort xs)

Ordered : List ℕ → Type 0
Ordered [] = Unit
Ordered (x ∷ xs) = All (λ y. x ≤ y) xs × Ordered xs

All-mono : (x y : ℕ) (ys : List ℕ) → x ≤ y → All (λ z. y ≤ z) ys → All (λ z. x ≤ z) ys
All-mono x y [] le a = tt
All-mono x y (z ∷ ys) le (h, a) = (omega arith, All-mono x y ys le a)

All-insert :
    (z x : ℕ) (ys : List ℕ) → z ≤ x → All (λ y. z ≤ y) ys → All (λ y. z ≤ y) (insert_score x ys)
unfolding insert_score
All-insert z x [] le a = (le, tt)
All-insert z x (y ∷ ys) le (h, a) = elim (Bool-cases (leb x y)) [
  | inl small ↦ rw small (le, (h, a))
  | inr more ↦ rw more (h, All-insert z x ys le a)
]

insert-Ordered : (x : ℕ) (ys : List ℕ) → Ordered ys → Ordered (insert_score x ys)
unfolding insert_score Ordered
insert-Ordered x [] o = (tt, tt)
insert-Ordered x (y ∷ ys) (a, o) = elim (Bool-cases (leb x y)) [
  | inl le ↦ let l : x ≤ y = ground arith in rw le ((l, All-mono x y ys l a), (a, o))
  | inr more ↦
      let l : y ≤ x = ground arith in rw more (All-insert y x ys l a, insert-Ordered x ys o)
]

sort-Ordered : (xs : List ℕ) → Ordered (sort xs)
unfolding sort Ordered
sort-Ordered [] = tt
sort-Ordered (x ∷ xs) = insert-Ordered x (sort xs) (sort-Ordered xs)

All-nth : (x k : ℕ) (ys : List ℕ) → k < length ys → All (λ y. x ≤ y) ys → x ≤ nth ys k
unfolding nth
All-nth x k [] lt a = ground arith
All-nth x zero (y ∷ ys) lt (h, a) = h
All-nth x (suc k) (y ∷ ys) lt (h, a) = All-nth x k ys (omega arith) a

-- Up to a place of an ordered list, all scores are at most the one there.
count-nth :
    (p : ℕ → Bool) (k : ℕ) (xs : List ℕ)
    → Ordered xs
    → k < length xs
    → ((y : ℕ) → y ≤ nth xs k → p y ≡ true)
    → suc k ≤ count p xs
unfolding nth count Ordered
count-nth p k [] o lt all = ground arith
count-nth p zero (x ∷ xs) o lt all =
    let here : p x ≡ true = all x (omega arith) in rw here (omega arith)
count-nth p (suc k) (x ∷ xs) (a, o) lt all =
    let here : p x ≡ true = all x (All-nth x k xs (omega arith) a) in
    let rest = count-nth p k xs o (omega arith) all in rw here (omega arith)

nth-next : (k : ℕ) (xs : List ℕ) → Ordered xs → suc k < length xs → nth xs k ≤ nth xs (suc k)
unfolding nth Ordered
nth-next k [] o lt = ground arith
nth-next zero (x ∷ xs) (a, o) lt = All-nth x 0 xs (omega arith) a
nth-next (suc k) (x ∷ xs) (a, o) lt = nth-next k xs o (omega arith)

-- The score in the middle, the lower one of two.
middle : List ℕ → ℕ
middle s = (length s - 1) / 2

even_lower :
    (s : List ℕ) (mid : ℕ)
    → Ordered s
    → length s ≡ 2 * mid
    → 1 ≤ mid
    → nth s ((length s - 1) / 2) * 2 ≤ nth s (mid - 1) + nth s mid
even_lower s zero o e pos = ground arith
even_lower s (suc m) o e pos =
    let here : (length s - 1) / 2 ≡ m = omega arith in
    let step = nth-next m s o (omega arith) in
    let pred : suc m - 1 ≡ m = omega arith in rw here (rw pred (omega arith))

lower-median : (s : List ℕ) → Ordered s → 1 ≤ length s → nth s (middle s) * 2 ≤ twice_median s
unfolding twice_median middle
lower-median s o one = elim (Bool-cases (eqb (length s % 2) 1)) [
  | inl odd ↦
      let here : (length s - 1) / 2 ≡ length s / 2 = ground arith in rw odd (rw here (omega arith))
  | inr even ↦ rw even (even_lower s (length s / 2) o (ground arith) (ground arith))
]

-- Nine tenths of the earlier score are at most the newest one.
abbrev pub kept_up : ℕ → ℕ → Bool
kept_up newest p = leb (p * 90) (newest * 100)

kept_up_below : (newest y v : ℕ) → v * 90 ≤ newest * 100 → y ≤ v → kept_up newest y ≡ true
kept_up_below newest y v le yv = ground arith

not_dropped :
    (newest m : ℕ) → (ltb 0 m && ltb (newest * 200) (m * 90)) ≡ false → m * 90 ≤ newest * 200
not_dropped newest m e = ground arith

-- Where retrieval has not regressed, the newest score keeps up with at
-- least half of the earlier ones.
pub regressed_half :
    (newest : ℕ) (prior : List ℕ)
    → regressed newest prior ≡ false
    → length prior ≤ 2 * count (kept_up newest) prior
unfolding regressed middle
regressed_half newest [] e = omega arith
regressed_half newest (q ∷ qs) e =
    let prior : List ℕ = q ∷ qs in
    let s = sort prior in
    let len : length s ≡ suc (length qs) = length-sort prior in
    let o = sort-Ordered prior in
    let le = not_dropped newest (twice_median s) e in
    let lo = lower-median s o (omega arith) in
    let c =
      count-nth (kept_up newest) (middle s) s o (omega arith)
        (λ y yv. kept_up_below newest y (nth s (middle s)) (omega arith) yv) in
    let same = count-sort (kept_up newest) prior in omega arith
