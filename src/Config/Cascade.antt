-- ===== src/Config/Cascade.antt =====
-- config_cascade.go: resolveCascadingConfig, which applies the files from the root to the target's directory.
pub mod Read
pub mod Strictest
mod Tests
use Prim.Native.String.{◌++◌ as concat}
use px.Prelude.{
  ℕ, suc, ◌+◌, String, Bool, true, false, not, ◌&&◌, ◌||◌, Option, none, some, List, [], ◌∷◌, ◌++◌,
  str_eq, ltb, if◌then◌else◌, Result, ok, err, ◌>>=◌, ◌>>◌, refuse_if, wrap_error, length,
}
use px.Prelude.Int.{ℤ, pos, ltb_ℤ}
use px.Prelude.Text.{str_lt, split_on}
use px.Prelude.Sort.{sort_by}
use px.Prelude.Maps.{add_key, lookup, string_eq}
use px.Prelude.Paths.{clean, is_abs, escapes, dir}
use px.Config.Decode.{ConfigInput, DecodeJson, decode_config, repository_key}

abbrev pub config_depth_limit : ℕ
config_depth_limit = 20

pub record ResolvedConfig : Type 0 where
  pub sources : List String
  pub strictness : ℤ
  pub comment_types : List String
  pub disabled_rules : List String
  pub max_inline_comments : ℤ
  pub fail_on_p0 : Bool
  pub context_repos : List String

-- The default_config; the lists of rules and repositories are sets while the files are applied.
abbrev pub default_config : ResolvedConfig
default_config = record {
  sources = [];
  strictness = pos 2;
  comment_types = "logic" ∷ "security" ∷ "style" ∷ "syntax" ∷ [];
  disabled_rules = [];
  max_inline_comments = pos 15;
  fail_on_p0 = false;
  context_repos = [];
}

-- The directories below the root, each with its config file.
unfoldable pub config_paths : String → List String → List String
config_paths prefix [] = []
config_paths prefix (part ∷ parts) =
    concat (concat prefix part) "/.px1/config.json"
    ∷ config_paths (concat (concat prefix part) "/") parts

unfoldable pub config_candidates : String → List String
config_candidates target =
    ".px1/config.json"
    ∷ (if str_eq (dir target) "." then [] else config_paths "" (split_on 47 (dir target)))

abbrev stricter : ℤ → Option ℤ → ℤ
stricter current none = current
stricter current (some n) = if ltb_ℤ current n then n else current

abbrev or_option : Bool → Option Bool → Bool
or_option current none = current
or_option current (some b) = current || b

abbrev replace {ℓ} : {A : Type ℓ} → A → Option A → A
replace current none = current
replace current (some a) = a

unfoldable pub add_rules : List String → List String → List String
add_rules set [] = set
add_rules set (x ∷ xs) = add_rules (add_key x set) xs

unfoldable pub add_repositories : List String → Option (List String) → List String
add_repositories set none = set
add_repositories set (some []) = set
add_repositories set (some (x ∷ xs)) = add_repositories (add_key (repository_key x) set) (some xs)

-- One file that was decoded.
unfoldable pub apply_config : ResolvedConfig → String → ConfigInput → ResolvedConfig
apply_config result candidate input = record {
  sources = result.sources ++ candidate ∷ [];
  strictness = stricter result.strictness input.strictness;
  comment_types = replace result.comment_types input.comment_types;
  disabled_rules = add_rules result.disabled_rules input.disabled_rules;
  max_inline_comments = replace result.max_inline_comments input.max_inline_comments;
  fail_on_p0 = or_option result.fail_on_p0 input.fail_on_p0;
  context_repos = add_repositories result.context_repos input.context;
}

-- The loop over the candidates; one without a file is passed over.
unfoldable pub apply_files :
    DecodeJson → List (String × String) → ResolvedConfig → List String → Result ResolvedConfig
apply_files decode files result [] = ok result
apply_files decode files result (candidate ∷ candidates) = elim (lookup candidate files) [
  | none ↦ apply_files decode files result candidates
  | some body ↦ elim (decode_config decode body) [
    | err e ↦ err (concat candidate (concat ": " e))
    | ok input ↦ apply_files decode files (apply_config result candidate input) candidates
  ]
]

abbrev pub invalid_target : String → Bool
invalid_target target =
    str_eq target "" || is_abs target || str_eq (clean target) "." || escapes (clean target)

-- The sets, sorted into lists.
unfoldable pub finish_config : ResolvedConfig → Result ResolvedConfig
finish_config result =
    refuse_if (ltb 10 (length result.context_repos))
      "resolved context.repos cannot exceed 10 repositories"
    >> ok (record result {
      disabled_rules = sort_by str_lt result.disabled_rules;
      context_repos = sort_by str_lt result.context_repos;
    })

-- `resolveCascadingConfig`
unfoldable pub resolve_cascading_config :
    DecodeJson → String → List (String × String) → Result ResolvedConfig
resolve_cascading_config decode target files =
    refuse_if (invalid_target target) "config target must be a repository-relative file"
    >> refuse_if (ltb config_depth_limit (length (split_on 47 (dir (clean target)))))
        "config target exceeds directory depth limit"
    >> (apply_files decode files default_config (config_candidates (clean target))
        >>= finish_config)
