-- ===== src/Containers/Stamps.antt =====
-- `parse_ts`: the timestamps of podman. Digits are those of ASCII.
use Prim.Native.Char.{Char, code}
use Prim.Native.String.{[] as empty, ◌∷◌ as ◌▸◌}
use az_lab.Text
use az_lab.Time.{Time}
use az_lab.Prelude.{
  String, ◌<>◌, ◌≡◌, refl, Bool, true, false, ◌&&◌, ◌||◌, Option, none, some, ◌==◌, leb, eqb,
  if◌then◌else◌,
}

unfoldable pub is_digit : Char → Bool
is_digit c = leb 48 (code c) && leb (code c) 57

-- The text begins with the pattern, in which a `d` is any digit.
fits : String → String → Bool
unfolding is_digit
fits empty s = true
fits (p ▸ ps) empty = false
fits (p ▸ ps) (c ▸ s) =
    (if eqb (code p) 100 then is_digit c else eqb (code p) (code c)) && fits ps s

-- The digits in front, and the rest.
digits : String → String × String
unfolding is_digit
digits empty = ("", "")
digits (c ▸ s) =
    let (front, rest) = digits s in if is_digit c then (c ▸ front, rest) else ("", c ▸ s)

-- `none` where the pattern does not match
fraction : String → Option (String × String)
unfolding digits Text.is_prefix Text.drop
fraction s =
    if Text.is_prefix "." s
    then (let (front, rest) = digits (Text.drop 1 s) in
        if front == "" then none else some (front, rest))
    else some ("0", s)

offset : String → Option String
unfolding fits Text.length Text.take Text.drop
offset s =
    if s == "" || s == "Z"
    then some "+00:00"
    else if eqb (Text.length s) 6 && (fits "+dd:dd" s || fits "-dd:dd" s)
    then some s
    else if eqb (Text.length s) 5 && (fits "+dddd" s || fits "-dddd" s)
    then some (Text.take 3 s <> (":" <> Text.drop 3 s))
    else none

abbrev with_offset : String → String → Option String → Option String
with_offset base digits_6 none = none
with_offset base digits_6 (some off) = some (base <> ("." <> (digits_6 <> off)))

abbrev with_fraction : String → Option (String × String) → Option String
unfolding Text.take offset
with_fraction base none = none
with_fraction base (some (frac, rest)) =
    with_offset base (Text.take 6 (Text.take 6 frac <> "000000")) (offset rest)

-- The text that is given to fromisoformat.
unfoldable pub iso_text : String → Option String
unfolding Text.strip Text.is_prefix Text.take Text.drop Text.length fits fraction with_fraction
iso_text text =
    let s = Text.strip text in
    if Text.is_prefix "0001-01-01" s
    then none
    else if fits "dddd-dd-ddTdd:dd:dd" s
    then with_fraction (Text.take 19 s) (fraction (Text.drop 19 s))
    else none

abbrev parsed : (String → Option Time) → Option String → Option Time
parsed from_iso none = none
parsed from_iso (some s) = from_iso s

unfoldable pub parse_ts : (String → Option Time) → String → Option Time
unfolding iso_text
parse_ts from_iso s = if s == "" then none else parsed from_iso (iso_text s)

stamp_tests :
    (iso_text "2026-08-12T19:48:01.123456789Z" ≡ some "2026-08-12T19:48:01.123456+00:00")
    × (iso_text " 2026-08-12T19:48:01-0700" ≡ some "2026-08-12T19:48:01.000000-07:00")
    × (iso_text "2026-08-12T19:48:01.5+02:00" ≡ some "2026-08-12T19:48:01.500000+02:00")
    × (iso_text "0001-01-01T00:00:00Z" ≡ none)
    × (iso_text "2026-08-12T19:48:01.Z" ≡ none)
    × (iso_text "yesterday" ≡ none)
unfolding iso_text
stamp_tests = (refl, refl, refl, refl, refl, refl)
