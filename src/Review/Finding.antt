-- ===== src/Review/Finding.antt =====
-- internal/hosted/review/finding.go: a finding and the checks on it after its JSON is decoded.
use Prim.Native.String.{◌++◌}
use px.Prelude.{
  ℕ, ◌+◌, String, len, not, ◌&&◌, ◌||◌, List, [], ◌∷◌, ltb, str_eq, if◌then◌else◌, Result, ok, err,
  ◌>>◌, refuse_if, wrap_error, length,
}
use px.Prelude.Int.{ℤ, pos, ltb_ℤ, leb_ℤ}
use px.Prelude.Text.{is_blank, show_ℕ, show_ℤ}
use px.Prelude.Paths.{clean, is_abs, escapes}
use px.Prelude.Float.{Float, zero_f, one_f, ltb_f}
use px.Prelude.Maps.{contains, string_eq}

pub record Finding : Type 0 where
  pub path : String
  pub start_line : ℤ
  pub end_line : ℤ
  pub severity : String
  pub type : String
  pub title : String
  pub body : String
  pub evidence : String
  pub suggestion : String
  pub confidence : Float
  pub rule_id : String

abbrev pub finding_types : List String
finding_types = "logic" ∷ "syntax" ∷ "style" ∷ "security" ∷ []

-- `Finding.Validate`
unfoldable pub validate : Finding → Result (Unit {0})
validate f = do
  refuse_if (str_eq f.path "" || is_abs f.path || escapes (clean f.path))
      "path must be repository-relative"
  refuse_if (leb_ℤ f.start_line (pos 0) || ltb_ℤ f.end_line f.start_line) "line range is invalid"
  refuse_if
      (not (str_eq f.severity "P0") && not (str_eq f.severity "P1") && not (str_eq f.severity "P2"))
      "severity must be P0, P1, or P2"
  refuse_if (not (contains f.type finding_types)) "unsupported finding type"
  refuse_if (is_blank f.title || is_blank f.body || is_blank f.evidence)
      "title, body, and evidence are required"
  refuse_if
      (ltb 200 (len f.title)
        || ltb 16000 (len f.body)
        || ltb 8000 (len f.evidence)
        || ltb 16000 (len f.suggestion))
      "finding text exceeds its limit"
  refuse_if (ltb_f f.confidence zero_f || ltb_f one_f f.confidence)
      "confidence must be between 0 and 1"

abbrev limit_of : ℤ → ℤ
limit_of max_findings = if leb_ℤ max_findings (pos 0) then pos 100 else max_findings

-- The loop of `DecodeFindings` over the decoded findings, from index `i`.
unfoldable pub validate_all : ℕ → List Finding → Result (Unit {0})
validate_all i [] = ok tt
validate_all i (f ∷ fs) =
    wrap_error ("finding " ++ (show_ℕ i ++ ": ")) (validate f) >> validate_all (i + 1) fs

-- `DecodeFindings` behind the JSON decoder: `decoded` is what the decoder answers, an error for
-- malformed JSON, an unknown field or trailing data.
unfoldable pub decode_findings : Result (List Finding) → ℤ → Result (List Finding)
unfolding validate_all show_ℕ
decode_findings (err e) max_findings = err e
decode_findings (ok findings) max_findings = do
  refuse_if (ltb_ℤ (limit_of max_findings) (pos (length findings))) (
      "finding count "
      ++ (show_ℕ (length findings) ++ (" exceeds limit " ++ show_ℤ (limit_of max_findings))))
  validate_all 0 findings
  ok findings
