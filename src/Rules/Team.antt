-- ===== src/Rules/Team.antt =====
-- artifact_rules.go and validate_rules.go: the file of a team's rules read.
pub mod Read
use px.Prelude.{
  ℕ, zero, suc, ◌+◌, String, len, Bool, true, false, not, ◌&&◌, ◌||◌, Option, none, some, List, [],
  ◌∷◌, ◌++◌, Result, ok, err, ◌>>=◌, ◌>>◌, refuse_if, wrap_error, ltb, leb, ◌==◌, if◌then◌else◌,
  length, str_eq,
}
use px.Prelude.Int.{ℤ, pos, eqb_ℤ}
use px.Prelude.Text.{trim_space, all_chars, show_ℕ, show_ℤ, is_blank}
use px.Prelude.Maps.{contains, add_key, string_eq}
use px.Rules.Globs.{codes, quote_meta, glob_pattern}
use Prim.Native.Char.{code}
use Prim.Native.String.{◌++◌ as concat}
use px.Rules.Rule.{RuleInput, Texts, or_text, validate_rule}

abbrev pub rule_team_file : String
rule_team_file = ".px1/rules.json"

-- Less the instants and the hits, which a file of rules does not set.
pub record ReviewRule : Type 0 where
  pub id : String
  pub title : String
  pub why : String
  pub severity : String
  pub match_kind : String
  pub pattern : String
  pub glob : String
  pub globs : List String
  pub message : String
  pub enabled : Bool
  pub source : String
  pub origin : String

unfoldable pub team_rule : String → RuleInput → ReviewRule
team_rule id r = record {
  id = id;
  title = r.title;
  why = r.why;
  severity = r.severity;
  match_kind = r.match_kind;
  pattern = r.pattern;
  glob = r.glob;
  globs = r.globs;
  message = r.message;
  enabled = true;
  source = "team";
  origin = r.origin;
}

abbrev pub rule_place : ℕ → String → String
rule_place i e = concat rule_team_file (concat " rule " (concat (show_ℕ (i + 1)) (concat ": " e)))

abbrev pub with_rule :
    ReviewRule → List ReviewRule × Option String → List ReviewRule × Option String
with_rule r more = (r ∷ more.0, more.1)

module _ (t : Texts) where
  -- The loop over the rules of the file: the rules before the first error, and that error.
  unfoldable pub team_rules : ℕ → List String → List RuleInput → List ReviewRule × Option String
  unfolding team_rule
  team_rules i seen [] = ([], none)
  team_rules i seen (input ∷ inputs) = elim (validate_rule t input) [
    | err e ↦ ([], some (rule_place i e))
    | ok valid ↦
        let id = or_text valid.id (concat "team-" (show_ℕ (i + 1))) in
        let more = with_rule (team_rule id valid) (team_rules (i + 1) (add_key id seen) inputs) in
        if contains id seen
        then ([], some (rule_place i (concat "duplicate id " (t.quote id))))
        else more
  ]

  -- `unmarshal` is `json.Unmarshal` into the version and the rules.
  unfoldable pub parse_team_rules :
      (String → Result (ℤ × List RuleInput)) → String → List ReviewRule × Option String
  unfolding team_rules
  parse_team_rules unmarshal body = elim (unmarshal body) [
    | err e ↦ ([], some (concat rule_team_file (concat ": " e)))
    | ok (version, rules) ↦
        if not (eqb_ℤ version (pos 0)) && not (eqb_ℤ version (pos 1))
        then ([], some (concat rule_team_file (concat ": unsupported version " (show_ℤ version))))
        else team_rules 0 [] rules
  ]

pub record RuleValidationSummary : Type 0 where
  pub valid : Bool
  pub file : String
  pub rules : ℕ
  pub info : ℕ
  pub warnings : ℕ
  pub errors : ℕ

unfoldable pub count_severity : RuleValidationSummary → ReviewRule → RuleValidationSummary
count_severity s r =
    if str_eq r.severity "error"
    then record s { errors = s.errors + 1 }
    else if str_eq r.severity "info"
    then record s { info = s.info + 1 }
    else record s { warnings = s.warnings + 1 }

unfoldable pub count_severities : RuleValidationSummary → List ReviewRule → RuleValidationSummary
unfolding count_severity
count_severities s [] = s
count_severities s (r ∷ rs) = count_severities (count_severity s r) rs

-- `validateRulesPath`; `absolute` is `filepath.Abs` and `read_file` is `os.ReadFile`.
unfoldable pub validate_rules_path :
    Texts
    → (String → Result (ℤ × List RuleInput))
    → (String → Result String)
    → (String → Result String)
    → String
    → Result RuleValidationSummary
unfolding parse_team_rules count_severities
validate_rules_path t unmarshal absolute read_file path = do
  clean ← wrap_error "resolve rules file: " (absolute path)
  body ← wrap_error (concat "read rules file " (concat path ": ")) (read_file clean)
  let (rules, e) = parse_team_rules t unmarshal body
  elim e [
    | some m ↦ err m
    | none ↦ ok (
        count_severities
          (record {
            valid = true;
            file = path;
            rules = length rules;
            info = 0;
            warnings = 0;
            errors = 0;
          })
          rules)
  ]
