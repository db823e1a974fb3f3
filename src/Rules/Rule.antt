-- ===== src/Rules/Rule.antt =====
-- artifact_rules.go: a rule checked.
pub mod Checked
mod Tests
use px.Prelude.{
  ℕ, zero, suc, ◌+◌, String, len, Bool, true, false, not, ◌&&◌, ◌||◌, Option, none, some, List, [],
  ◌∷◌, ◌++◌, Result, ok, err, ◌>>=◌, ◌>>◌, refuse_if, wrap_error, ltb, leb, ◌==◌, if◌then◌else◌,
  length, str_eq,
}
use px.Prelude.Int.{ℤ, pos, eqb_ℤ}
use px.Prelude.Text.{trim_space, all_chars, show_ℕ, show_ℤ, is_blank}
use px.Prelude.Maps.{contains, add_key, string_eq}
use px.Rules.Globs.{codes, quote_meta, glob_pattern}
use Prim.Native.Char.{code}
use Prim.Native.String.{◌++◌ as concat}

abbrev pub rule_pattern_max : ℕ
rule_pattern_max = 300

abbrev pub rule_glob_max : ℕ
rule_glob_max = 200

abbrev pub rule_message_max : ℕ
rule_message_max = 400

pub record RuleInput : Type 0 where
  pub id : String
  pub title : String
  pub description : String
  pub severity : String
  pub languages : List String
  pub globs : List String
  pub match_kind : String
  pub match_pattern : String
  pub why : String
  pub pattern : String
  pub glob : String
  pub message : String
  pub origin : String

-- What is not under the repository: Go's regular expressions, over code points, with the error of
-- `Compile` if there is one; `strings.ToLower`; `s[:max]`; `%q`; and SHA-256.
pub record Texts : Type 0 where
  pub compile_error : List ℕ → Option String
  pub found_in : List ℕ → String → Bool
  pub to_lower : String → String
  pub cut : String → ℕ → String
  pub quote : String → String
  -- The first eight bytes of a text's SHA-256, in hexadecimal.
  pub short_sha256 : String → String

abbrev pub or_text : String → String → String
or_text s d = if str_eq s "" then d else s

module _ (t : Texts) where
  unfoldable pub clip : String → ℕ → String
  clip s limit =
      let trimmed = trim_space s in
      if leb (len trimmed) limit then trimmed else concat (trim_space (t.cut trimmed limit)) "…"

  unfoldable pub rule_hit_key : String → String → String → String
  rule_hit_key rule_id path text =
      concat rule_id (concat ":" (concat path (concat ":" (t.short_sha256 (trim_space text)))))

  -- The first assignments of `validateRule`.
  unfoldable pub trim_rule : RuleInput → RuleInput
  trim_rule r = record r {
    id = trim_space r.id;
    title = clip r.title rule_message_max;
    description = clip r.description rule_message_max;
    why = clip r.why rule_message_max;
    severity = t.to_lower (trim_space r.severity);
    match_kind = t.to_lower (trim_space r.match_kind);
    match_pattern = trim_space r.match_pattern;
  }

  -- The pattern of `match` in place of the pattern.
  unfoldable pub merge_match : RuleInput → Result RuleInput
  merge_match r =
      let is_text = str_eq r.match_kind "text" || str_eq r.match_kind "block-text" in
      let is_regex = str_eq r.match_kind "regex" || str_eq r.match_kind "block-regex" in
      if not (str_eq r.match_pattern "")
      then (if not (str_eq r.pattern "")
          then err "use pattern or match, not both"
          else if is_text
          then ok (record r { pattern = quote_meta r.match_pattern })
          else if is_regex
          then ok (record r { pattern = r.match_pattern })
          else err "match.kind must be regex, text, block-regex, or block-text")
      else if not (str_eq r.match_kind "")
      then err "match.pattern is required"
      else ok r

  unfoldable pub trim_texts : RuleInput → RuleInput
  trim_texts r = record r {
    pattern = trim_space r.pattern;
    glob = trim_space r.glob;
    message = clip r.message rule_message_max;
    origin = clip r.origin rule_glob_max;
  }

  abbrev pub failed : String → Option String → Result (Unit {0})
  failed context none = ok tt
  failed context (some e) = err (concat context e)

  -- The error of `globRegexp`.
  abbrev pub glob_error : String → Option String
  glob_error glob = elim (glob_pattern glob) [
    | none ↦ none
    | some pattern ↦ t.compile_error pattern
  ]

  unfoldable pub check_pattern : RuleInput → Result (Unit {0})
  check_pattern r = do
    refuse_if (str_eq r.pattern "" || ltb rule_pattern_max (len r.pattern))
        "pattern must be between 1 and 300 bytes"
    failed "pattern: " (t.compile_error (codes r.pattern))
    refuse_if (t.found_in (codes r.pattern) "") "pattern matches every line"
    refuse_if (ltb rule_glob_max (len r.glob)) "glob must be at most 200 bytes"
    failed "glob: " (glob_error r.glob)
    refuse_if (str_eq r.message "") "rule needs a message"

  abbrev pub is_alphanumeric : ℕ → Bool
  is_alphanumeric n =
      (leb b'a' n && leb n b'z') || (leb b'A' n && leb n b'Z') || (leb b'0' n && leb n b'9')

  -- `^[a-zA-Z0-9][a-zA-Z0-9._-]{0,79}$`
  unfoldable pub valid_id : String → Bool
  unfolding all_chars
  valid_id String.[] = false
  valid_id (String.◌∷◌ c s) =
      is_alphanumeric (code c)
      && all_chars (λ n. is_alphanumeric n || n == b'.' || n == b'_' || n == b'-') s
      && leb (len s) 79

  -- The severity and the kind that a rule has if it says nothing.
  unfoldable pub with_kind : RuleInput → RuleInput
  with_kind r = record r {
    severity = or_text r.severity "warning";
    match_kind = or_text r.match_kind "regex";
  }

  abbrev pub known_severity : String → Bool
  known_severity s = str_eq s "info" || str_eq s "warning" || str_eq s "error"

  unfoldable pub with_defaults : RuleInput → RuleInput
  with_defaults r = record r {
    title = or_text r.title r.message;
    why = or_text r.why r.description;
    globs = elim (r.globs) [ [] ↦ if str_eq r.glob "" then [] else r.glob ∷ [] | g ∷ gs ↦ g ∷ gs ];
  }

  -- The loop over `in.Globs`.
  unfoldable pub check_globs : ℕ → List String → Result (List String)
  check_globs i [] = ok []
  check_globs i (g ∷ gs) =
      let trimmed = trim_space g in
      let place = concat "globs[" (concat (show_ℕ i) "]") in
      let rest = check_globs (i + 1) gs >>= λ others. ok (trimmed ∷ others) in
      refuse_if (ltb rule_glob_max (len trimmed)) (concat place " must be at most 200 bytes")
      >> (failed (concat place ": ") (glob_error trimmed) >> rest)

  abbrev pub finish_rule : RuleInput → Result RuleInput
  finish_rule r = do
    refuse_if (not (known_severity r.severity)) "severity must be info, warning, or error"
    let full = with_defaults r
    refuse_if (ltb 20 (length full.globs)) "globs must contain at most 20 entries"
    globs ← check_globs 0 full.globs
    ok (record full { globs = globs })

  unfoldable pub validate_rule : RuleInput → Result RuleInput
  validate_rule input = do
    merged ← merge_match (trim_rule input)
    let r = trim_texts merged
    check_pattern r
    refuse_if (not (str_eq r.id "") && not (valid_id r.id))
        "id must contain only letters, numbers, dot, underscore, or dash"
    finish_rule (with_kind r)
