-- ===== src/Review/Addressed.antt =====
-- internal/hosted/review/addressed.go: whether reviewed lines changed before the merge.
pub mod Sequence
pub mod Verdict
mod Tests
use Prim.Native.String.{◌++◌ as concat}
use px.Prelude.{
  ℕ, zero, suc, ◌*◌, ◌^◌, String, len, Bool, true, false, not, ◌&&◌, ◌||◌, Option, none, some, List,
  [], ◌∷◌, ltb, leb, ◌==◌, str_eq, if◌then◌else◌, Result, ok, err, ◌>>=◌, ◌>>◌, refuse_if, length,
  take, drop,
}
use Prim.Native.Nat.{◌-◌}
use Prim.Native.Char.{code}
use px.Prelude.Int.{ℤ, pos, pos_part, ltb_ℤ, leb_ℤ}
use px.Prelude.Text.{split_on, join}
use px.Prelude.Paths.{clean, is_abs, escapes}
use px.Review.ReReview.{full_sha}

abbrev pub max_addressed_file_bytes : ℕ
max_addressed_file_bytes = 4 * 2 ^ 20

pub record AddressedInput : Type 0 where
  pub installation_id : ℤ
  pub repository_id : ℤ
  pub review_sha : String
  pub merge_sha : String
  pub path : String
  pub start_line : ℤ
  pub end_line : ℤ

pub record AddressedResult : Type 0 where
  pub addressed : Bool
  pub reason : String
  pub original_fingerprint : String

-- bytes.ReplaceAll(content, "\r\n", "\n")
unfoldable pub unify_newlines : String → String
unify_newlines String.[] = String.[]
unify_newlines (String.◌∷◌ c String.[]) = String.◌∷◌ c String.[]
unify_newlines (String.◌∷◌ c (String.◌∷◌ d s)) =
    let rest = unify_newlines (String.◌∷◌ d s) in
    if code c == 13 && code d == 10 then rest else String.◌∷◌ c rest

-- bytes.TrimSuffix(content, "\n")
unfoldable pub drop_final_newline : String → String
drop_final_newline String.[] = String.[]
drop_final_newline (String.◌∷◌ c String.[]) =
    if code c == 10 then String.[] else String.◌∷◌ c String.[]
drop_final_newline (String.◌∷◌ c (String.◌∷◌ d s)) =
    String.◌∷◌ c (drop_final_newline (String.◌∷◌ d s))

-- `splitReviewLines`
unfoldable pub split_review_lines : String → List String
unfolding unify_newlines drop_final_newline split_on
split_review_lines content = split_on 10 (drop_final_newline (unify_newlines content))

-- The inner loop: `wanted` stands at the head of the lines.
unfoldable pub matches_here : List String → List String → Bool
matches_here lines [] = true
matches_here [] (w ∷ ws) = false
matches_here (l ∷ ls) (w ∷ ws) = str_eq l w && matches_here ls ws

-- The outer loop, over the lines that are left.
unfoldable pub scan_lines : List String → List String → Bool
unfolding matches_here
scan_lines [] wanted = false
scan_lines (l ∷ ls) wanted =
    let rest = scan_lines ls wanted in
    if leb (length wanted) (length (l ∷ ls))
    then (if matches_here (l ∷ ls) wanted then true else rest)
    else false

-- `containsLineSequence`
unfoldable pub contains_line_sequence : List String → List String → Bool
unfolding scan_lines
contains_line_sequence lines wanted =
    if length wanted == 0 || ltb (length lines) (length wanted)
    then false
    else scan_lines lines wanted

-- `lines[start-1 : end]`
abbrev pub range_of : ℤ → ℤ → List String → List String
range_of start stop lines =
    take (pos_part stop - (pos_part start - 1)) (drop (pos_part start - 1) lines)

-- The guard on the input.
unfoldable pub invalid_input : AddressedInput → Bool
invalid_input i =
    leb_ℤ i.installation_id (pos 0)
    || leb_ℤ i.repository_id (pos 0)
    || not (full_sha i.review_sha)
    || not (full_sha i.merge_sha)
    || str_eq i.review_sha i.merge_sha
    || str_eq i.path ""
    || is_abs i.path
    || escapes (clean i.path)
    || leb_ℤ i.start_line (pos 0)
    || ltb_ℤ i.end_line i.start_line

-- The revision reader: the file's content, `none` where the file does not exist, or an error.
abbrev pub ReadFile : Type 0
ReadFile = ℤ → ℤ → String → String → Result (Option String)

-- The first read, where a file that is missing is an error.
abbrev pub reviewed_file : Result (Option String) → Result String
reviewed_file (err e) = err (concat "read reviewed file: " e)
reviewed_file (ok none) = err "read reviewed file: reviewed file does not exist at review SHA"
reviewed_file (ok (some content)) = ok content

abbrev pub merged_file : Result (Option String) → Result (Option String)
merged_file (err e) = err (concat "read merged file: " e)
merged_file (ok content) = ok content

-- The verdict on the file of the merge revision.
unfoldable pub judge : String → List String → Option String → Result AddressedResult
judge fingerprint wanted none = ok (record {
  addressed = true;
  reason = "file was deleted before merge";
  original_fingerprint = fingerprint;
})
judge fingerprint wanted (some merged) = do
  refuse_if (ltb max_addressed_file_bytes (len merged))
      "merged file exceeds addressed-detection limit"
  ok (
      if contains_line_sequence (split_review_lines merged) wanted
      then record {
        addressed = false;
        reason = "reviewed lines remain unchanged at merge";
        original_fingerprint = fingerprint;
      }
      else record {
        addressed = true;
        reason = "reviewed lines changed before merge";
        original_fingerprint = fingerprint;
      })

-- `DetectAddressed`, with the revision reader and the hexadecimal SHA-256 of a text.
unfoldable pub detect_addressed :
    ReadFile → (String → String) → AddressedInput → Result AddressedResult
detect_addressed read_file sha256_hex i = do
  refuse_if (invalid_input i) "tenant, distinct revisions, and a valid reviewed range are required"
  original ← reviewed_file (read_file i.installation_id i.repository_id i.review_sha (clean i.path))
  refuse_if (ltb max_addressed_file_bytes (len original))
      "reviewed file exceeds addressed-detection limit"
  let lines = split_review_lines original
  refuse_if (ltb_ℤ (pos (length lines)) i.end_line) "reviewed range exceeds file length"
  let wanted = range_of i.start_line i.end_line lines
  merged ← merged_file (read_file i.installation_id i.repository_id i.merge_sha (clean i.path))
  judge (sha256_hex (join "\n" wanted)) wanted merged
