-- ===== src/Units/Changes.antt =====
-- `main` after the audit: what is posted, and the key that is kept for the next audit.
pub mod Laws
use az_lab.Keys
use az_lab.Keys.{Report}
use az_lab.Text
use az_lab.Units.{Kind, drift, ambiguous, Finding}
use az_lab.Units.Audit.{Located}
use az_lab.Prelude.{
  String, ◌<>◌, ◌≡◌, refl, Bool, true, false, ◌&&◌, ◌||◌, Option, none, some, List, [], ◌∷◌, map,
  ◌==◌, ltb, eqb, if◌then◌else◌, is_empty, length,
}

kind_name : Kind → String
kind_name drift = "DRIFT"
kind_name ambiguous = "AMBIGUOUS"

pub key_of : List Located → List String
unfolding Keys.sorted kind_name
key_of fs = Keys.sorted (map (λ f. kind_name f.finding.kind <> (":" <> f.finding.path)) fs)

line_of : Located → String
unfolding kind_name
line_of f =
    "- **"
    <> (kind_name f.finding.kind
        <> ("** `" <> (f.finding.path <> ("` (" <> (f.unit <> (") — " <> f.finding.detail))))))

message_of : List Located → List String → Option String
unfolding line_of Text.join Text.show
message_of [] [] = none
message_of [] (k ∷ ks) = some "✅ **Unit source integrity** — all findings cleared."
message_of (f ∷ fs) prev = some (
    "⚠\u{fe0f} **Unit source integrity** ("
    <> (Text.show (length (f ∷ fs)) <> (" finding(s))\n" <> Text.join "\n" (map line_of (f ∷ fs)))))

-- The findings, with the key of the previous audit.
pub report : List Located → List String → Report
unfolding key_of message_of
report fs prev = Keys.report (key_of fs) (message_of fs prev) prev
