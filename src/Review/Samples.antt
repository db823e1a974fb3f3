-- ===== src/Review/Samples.antt =====
-- Findings, ranges and settings that the tests of the review modules share.
use Prim.Native.Char.{code}
use px.Prelude.{ℕ, ◌^◌, String, ◌&&◌, ◌||◌, List, [], ◌∷◌, leb}
use px.Prelude.Int.{pos}
use px.Prelude.Text.{ascii_lower}
use px.Review.Finding.{Finding}
use px.Review.LineMap.{DiffRange}
use px.Review.Rank.{Unicode}

-- The part of the Unicode tables that is ASCII.
abbrev pub ascii : Unicode
ascii = record {
  to_lower = ascii_lower;
  is_letter = λ c. leb b'a' (code c) && leb (code c) b'z' || leb b'A' (code c) && leb (code c) b'Z';
  is_number = λ c. leb b'0' (code c) && leb (code c) b'9';
}

abbrev pub finding : String → ℕ → ℕ → String → String → Finding
finding path first last severity title = record {
  path = path;
  start_line = pos first;
  end_line = pos last;
  severity = severity;
  type = "logic";
  title = title;
  body = "body";
  evidence = "evidence";
  suggestion = "";
  confidence = pos (2 ^ 1073);
  rule_id = "";
}

abbrev pub nil_check : Finding
nil_check = finding "src/a.go" 10 12 "P1" "Missing nil check on the response"

abbrev pub nil_check_again : Finding
nil_check_again = finding "./src/a.go" 12 14 "P2" "Missing nil check on response"

abbrev pub leak : Finding
leak = finding "src/b.go" 3 3 "P0" "Token is written to the log"

abbrev pub three_findings : List Finding
three_findings = nil_check_again ∷ nil_check ∷ leak ∷ []

abbrev pub diff : List DiffRange
diff =
    record { path = "src/a.go"; start_line = pos 8; end_line = pos 13 }
    ∷ record { path = "src/c.go"; start_line = pos 1; end_line = pos 2 }
    ∷ []

abbrev pub sha_a : String
sha_a = "0123456789abcdef0123456789abcdef01234567"

abbrev pub sha_b : String
sha_b = "89ABCDEF0123456789abcdef0123456789abcdef"
