-- ===== src/Rules/Rule/Tests.antt =====
-- artifact_rules.go and validate_rules.go: a file with two rules, and one with a rule that is refused.
use px.Prelude.{
  ◌≡◌, refl, String, true, false, none, List, [], ◌∷◌, Result, ok, err, str_eq, if◌then◌else◌,
}
use px.Prelude.Int.{ℤ, pos}
use px.Prelude.Text.{trim_space, all_chars, show_ℕ}
use px.Prelude.Maps.{contains, add_key, string_eq}
use px.Rules.Globs.{quote_meta, glob_pattern}
use px.Rules.Rule.{
  RuleInput, Texts, clip, trim_rule, merge_match, trim_texts, check_pattern, valid_id, with_kind,
  with_defaults, check_globs, validate_rule,
}
use px.Rules.Team.{parse_team_rules, RuleValidationSummary, validate_rules_path}
use px.Rules.Rule.Checked.{IsValidRule, written_pattern, validate_rule-IsValidRule}
use px.Rules.Team.Read.{IsTeam, parse_team_rules-IsTeam}

-- Every pattern compiles, and only the empty one is found in the empty text.
abbrev plain : Texts
plain = record {
  compile_error = λ p. none;
  found_in = λ p s. false;
  to_lower = λ s. s;
  cut = λ s n. s;
  quote = λ s. s;
  short_sha256 = λ s. "00";
}

abbrev todo_rule : RuleInput
todo_rule = record {
  id = " todo ";
  title = "";
  description = "left over";
  severity = "";
  languages = [];
  globs = [];
  match_kind = "text";
  match_pattern = "TODO(me)";
  why = "";
  pattern = "";
  glob = "*.go";
  message = " finish it ";
  origin = "";
}

abbrev todo_valid : RuleInput
todo_valid = record todo_rule {
  id = "todo";
  title = "finish it";
  severity = "warning";
  globs = "*.go" ∷ [];
  why = "left over";
  pattern = "TODO\\(me\\)";
  message = "finish it";
}

validate-todo : validate_rule plain todo_rule ≡ ok todo_valid
unfolding validate_rule trim_rule merge_match trim_texts check_pattern valid_id with_kind
    with_defaults check_globs clip trim_space all_chars quote_meta glob_pattern show_ℕ
validate-todo = refl

validate_rule-IsValidRule_example :
    IsValidRule plain todo_valid
    × (todo_valid.pattern ≡ trim_space (written_pattern plain todo_rule))
validate_rule-IsValidRule_example =
    validate_rule-IsValidRule plain todo_rule todo_valid validate-todo

abbrev unnamed_rule : RuleInput
unnamed_rule = record todo_rule {
  id = "";
  match_kind = "";
  match_pattern = "";
  pattern = "fixme";
  severity = "info";
}

-- The file's text says which rules it has: two good ones, or one twice.
abbrev read_rules : String → Result (ℤ × List RuleInput)
read_rules body =
    if str_eq body "two"
    then ok (pos 1, todo_rule ∷ unnamed_rule ∷ [])
    else ok (pos 1, todo_rule ∷ todo_rule ∷ [])

abbrev two_rules : List RuleInput
two_rules = todo_rule ∷ unnamed_rule ∷ []

parse_team_rules-IsTeam_example :
    IsTeam plain two_rules
      (parse_team_rules plain read_rules "two").0
      (parse_team_rules plain read_rules "two").1
parse_team_rules-IsTeam_example =
    parse_team_rules-IsTeam plain read_rules "two" (pos 1) two_rules refl refl

abbrev counts : RuleValidationSummary
counts = record { valid = true; file = "rules.json"; rules = 2; info = 1; warnings = 1; errors = 0 }

rules-runs :
    (validate_rules_path plain read_rules (λ p. ok p) (λ p. ok "two") "rules.json" ≡ ok counts)
    × (validate_rules_path plain read_rules (λ p. ok p) (λ p. ok "twice") "rules.json"
        ≡ err ".px1/rules.json rule 2: duplicate id todo")
unfolding validate_rules_path validate_rule trim_rule merge_match trim_texts check_pattern valid_id
    with_kind with_defaults check_globs clip trim_space all_chars quote_meta glob_pattern show_ℕ
    contains add_key
rules-runs = (refl, refl)
