-- ===== src/Keys.antt =====
-- What the audits under infrastructure/ share: the sorted key of a set of findings, which is kept in
-- a state file, and the rule of their `main` functions that a message is posted if it has changed.
pub mod Laws
use Prim.Native.Char.{code}
use Prim.Native.String.{[] as empty, ◌∷◌ as ◌▸◌}
use az_lab.Prelude.{
  String, Bool, true, false, ◌&&◌, ◌||◌, Option, none, List, [], ◌∷◌, ◌==◌, ltb, eqb, if◌then◌else◌,
  elem,
}

-- a <= b on texts
unfoldable pub text_le : String → String → Bool
text_le empty t = true
text_le (c ▸ s) empty = false
text_le (c ▸ s) (d ▸ t) = ltb (code c) (code d) || (eqb (code c) (code d) && text_le s t)

insert : String → List String → List String
unfolding text_le
insert x [] = x ∷ []
insert x (y ∷ ys) = let rest = insert x ys in if text_le x y then x ∷ y ∷ ys else y ∷ rest

-- sorted(xs)
unfoldable pub sorted : List String → List String
unfolding insert
sorted [] = []
sorted (x ∷ xs) = insert x (sorted xs)

-- set(xs), in some order
unfoldable pub distinct : List String → List String
distinct [] = []
distinct (x ∷ xs) = let rest = distinct xs in if elem x rest then rest else x ∷ rest

same_key : List String → List String → Bool
same_key [] [] = true
same_key (x ∷ xs) (y ∷ ys) = x == y && same_key xs ys
same_key [] (y ∷ ys) = false
same_key (x ∷ xs) [] = false

pub record Report : Type 0 where
  pub posted : Option String
  pub key : List String

-- if key != prev: post the message, if there is one, and write the key
unfoldable pub report : List String → Option String → List String → Report
unfolding same_key
report key message prev =
    if same_key key prev
    then record { posted = none; key = prev }
    else record { posted = message; key = key }
