-- ===== src/Config/Cascade/Tests.antt =====
-- A file at the root and one in the directory of the target.
use px.Prelude.{
  ◌≡◌, ◌≤◌, ◌⊎◌, refl, subst, arith, err, false, All, String, true, none, some, List, [], ◌∷◌, ok,
  str_eq, if◌then◌else◌, length,
}
use px.Prelude.Int.{pos}
use px.Prelude.Text.{trim_space, all_chars, map_chars, ascii_lower, split_on}
use px.Prelude.Sort.{sort_by}
use px.Prelude.Maps.{contains, add_key, lookup, string_eq}
use px.Prelude.Paths.{clean, dir}
use px.Config.Decode.{
  ConfigInput, DecodeJson, decode_config, check_config, check_types, check_rules,
  check_repositories, is_repository, config_slug,
}
use px.Config.Cascade.{
  ResolvedConfig, default_config, config_candidates, config_paths, add_rules, add_repositories,
  apply_config, apply_files, finish_config, resolve_cascading_config, invalid_target,
  config_depth_limit,
}
use px.Config.Cascade.Read.{Decodes, TooMany, resolve_cascading_config-IsRead}
use px.Config.Cascade.Strictest.{IsApplied, inputs, resolve_cascading_config-IsApplied}

abbrev strict : ConfigInput
strict = record {
  version = pos 1;
  strictness = some (pos 3);
  comment_types = none;
  disabled_rules = "r2" ∷ [];
  max_inline_comments = none;
  fail_on_p0 = some true;
  context = none;
}

abbrev loose : ConfigInput
loose = record {
  version = pos 1;
  strictness = some (pos 1);
  comment_types = some ("logic" ∷ []);
  disabled_rules = "r1" ∷ [];
  max_inline_comments = some (pos 9);
  fail_on_p0 = some false;
  context = some ("Acme/api" ∷ []);
}

abbrev decode : DecodeJson
decode body = ok (if str_eq body "strict" then strict else loose, false)

abbrev repository : List (String × String)
repository = (".px1/config.json", "strict") ∷ ("src/.px1/config.json", "loose") ∷ []

abbrev resolved : ResolvedConfig
resolved = record {
  sources = ".px1/config.json" ∷ "src/.px1/config.json" ∷ [];
  strictness = pos 3;
  comment_types = "logic" ∷ [];
  disabled_rules = "r1" ∷ "r2" ∷ [];
  max_inline_comments = pos 9;
  fail_on_p0 = true;
  context_repos = "acme/api" ∷ [];
}

resolve_two : resolve_cascading_config decode "src/a.go" repository ≡ ok resolved
unfolding resolve_cascading_config clean config_candidates config_paths apply_files apply_config
    add_rules add_repositories decode_config check_config check_types check_rules check_repositories
    is_repository config_slug finish_config dir lookup trim_space contains all_chars add_key sort_by
    map_chars ascii_lower
resolve_two = refl

strict-Decodes : Decodes decode repository ".px1/config.json"
unfolding lookup decode_config check_config check_types check_rules check_repositories is_repository
    config_slug trim_space contains all_chars split_on
strict-Decodes body e =
    let same : "strict" ≡ body = ground (arith, e) in
    subst (λ b. (input : ConfigInput) × (decode_config decode b ≡ ok input)) same (strict, refl)

loose-Decodes : Decodes decode repository "src/.px1/config.json"
unfolding lookup decode_config check_config check_types check_rules check_repositories is_repository
    config_slug trim_space contains all_chars split_on
loose-Decodes body e =
    let same : "loose" ≡ body = ground (arith, e) in
    subst (λ b. (input : ConfigInput) × (decode_config decode b ≡ ok input)) same (loose, refl)

repository-Decodes : All (Decodes decode repository) (config_candidates (clean "src/a.go"))
unfolding clean config_candidates config_paths dir
repository-Decodes = (strict-Decodes, (loose-Decodes, tt))

resolved-IsApplied :
    IsApplied default_config
      (inputs decode repository (config_candidates (clean "src/a.go")))
      resolved
    × (length resolved.context_repos ≤ 10)
resolved-IsApplied =
    resolve_cascading_config-IsApplied decode "src/a.go" repository resolved resolve_two

target-valid : invalid_target "src/a.go" ≡ false
unfolding clean
target-valid = refl

target-shallow : length (split_on 47 (dir (clean "src/a.go"))) ≤ config_depth_limit
unfolding clean dir
target-shallow = omega arith

resolve_cascading_config-IsRead_example :
    let given = inputs decode repository (config_candidates (clean "src/a.go")) in
    ((r : ResolvedConfig) × (resolve_cascading_config decode "src/a.go" repository ≡ ok r)
      × IsApplied default_config given r
      × (length r.context_repos ≤ 10))
    ⊎ ((resolve_cascading_config decode "src/a.go" repository
          ≡ err "resolved context.repos cannot exceed 10 repositories")
        × TooMany given)
resolve_cascading_config-IsRead_example =
    resolve_cascading_config-IsRead decode "src/a.go" repository target-valid target-shallow
      repository-Decodes
