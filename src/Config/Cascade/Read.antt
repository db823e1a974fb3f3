-- ===== src/Config/Cascade/Read.antt =====
-- config_cascade.go: resolveCascadingConfig on files that decode.
use px.Prelude.{
  ◌≡◌, ◌≤◌, ◌<◌, refl, ◌⊎◌, inl, inr, String, true, false, ltb, none, some, Option, List, [], ◌∷◌,
  arith, ok, err, Option-cases, Bool-cases, any_of, All, length,
}
use px.Prelude.Maps.{contains, Distinct, add_key, add_key-Distinct, lookup, same_refl, string_eq}
use px.Prelude.Paths.{clean, dir}
use px.Prelude.Text.{split_on, str_lt}
use px.Prelude.Sort.{sort_by}
use px.Config.Decode.{ConfigInput, DecodeJson, decode_config, repository_key}
use px.Config.Cascade.{
  ResolvedConfig, default_config, config_candidates, add_repositories, apply_config, apply_files,
  finish_config, invalid_target, config_depth_limit, resolve_cascading_config,
}
use px.Config.Cascade.Strictest.{
  IsApplied, inputs, names_repository, apply_files-IsApplied, finish_config-IsApplied,
}

-- A file at the candidate, if there is one, decodes to a config.
abbrev pub Decodes : DecodeJson → List (String × String) → String → Type 0
Decodes decode files candidate =
    (body : String)
    → lookup candidate files ≡ some body
    → (input : ConfigInput) × (decode_config decode body ≡ ok input)

add_repositories-Distinct :
    (set : List String) (o : Option (List String))
    → Distinct set
    → Distinct (add_repositories set o)
unfolding add_repositories
add_repositories-Distinct set none d = d
add_repositories-Distinct set (some []) d = d
add_repositories-Distinct set (some (x ∷ xs)) d =
    add_repositories-Distinct (add_key (repository_key x) set) (some xs)
      (add_key-Distinct (repository_key x) set d)

apply_config-Distinct :
    (before : ResolvedConfig) (candidate : String) (input : ConfigInput)
    → Distinct before.context_repos
    → Distinct (apply_config before candidate input).context_repos
unfolding apply_config
apply_config-Distinct before candidate input d =
    add_repositories-Distinct before.context_repos input.context d

apply_files-ok :
    (decode : DecodeJson) (files : List (String × String)) (before : ResolvedConfig)
    → (candidates : List String) → All (Decodes decode files) candidates
    → Distinct before.context_repos
    → (r : ResolvedConfig) × (apply_files decode files before candidates ≡ ok r)
      × Distinct r.context_repos
unfolding apply_files
apply_files-ok decode files before [] all d = (before, refl, d)
apply_files-ok decode files before (c ∷ cs) all d = elim (Option-cases (lookup c files)) [
  | inl e ↦
      let (r, f, k) = apply_files-ok decode files before cs all.1 d in (r, ground (arith, e, f), k)
  | inr (body, e) ↦
      let (input, i) = all.0 body e in
      let (r, f, k) =
        apply_files-ok decode files (apply_config before c input) cs all.1
          (apply_config-Distinct before c input d) in
      (r, ground (arith, e, i, f), k)
]

-- More than ten different repositories are named.
abbrev pub TooMany : List ConfigInput → Type 0
TooMany given =
    (keys : List String) × Distinct keys
    × All (λ key. any_of (names_repository key) given ≡ true) keys
    × (10 < length keys)

All-contained :
    (P : String → Type 0) (keys : List String)
    → ((key : String) → contains key keys ≡ true → P key)
    → All P keys
unfolding contains
All-contained P [] among = tt
All-contained P (x ∷ xs) among = (
  among x (ground (arith, same_refl x)),
  All-contained P xs (λ key h. among key (ground (arith, h))),
)

context_repos-named :
    (given : List ConfigInput) (r : ResolvedConfig)
    → IsApplied default_config given r
    → (key : String) → contains key r.context_repos ≡ true
    → any_of (names_repository key) given ≡ true
unfolding contains
context_repos-named given r i key h = ground (arith, i.repositories key, h)

finish_config-cases :
    (r : ResolvedConfig)
    → ((out : ResolvedConfig) × (finish_config r ≡ ok out))
      ⊎ ((finish_config r ≡ err "resolved context.repos cannot exceed 10 repositories")
          × (10 < length r.context_repos))
unfolding finish_config
finish_config-cases r = elim (Bool-cases (ltb 10 (length r.context_repos))) [
  | inl e ↦ inr (ground (arith, e), ground (arith, e))
  | inr e ↦ inl (
    record r {
      disabled_rules = sort_by str_lt r.disabled_rules;
      context_repos = sort_by str_lt r.context_repos;
    },
    ground (arith, e),
  )
]

finished-IsRead :
    (given : List ConfigInput) (middle : ResolvedConfig)
    → IsApplied default_config given middle
    → Distinct middle.context_repos
    → ((r : ResolvedConfig) × (finish_config middle ≡ ok r)
        × IsApplied default_config given r
        × (length r.context_repos ≤ 10))
      ⊎ ((finish_config middle ≡ err "resolved context.repos cannot exceed 10 repositories")
          × TooMany given)
finished-IsRead given middle i d = elim (finish_config-cases middle) [
  | inl (r, e) ↦
      let (applied, few) = finish_config-IsApplied default_config middle r given e i in
      inl (r, e, applied, few)
  | inr (e, many) ↦
      let named =
        All-contained (λ key. any_of (names_repository key) given ≡ true) middle.context_repos
          (context_repos-named given middle i) in
      inr (e, (middle.context_repos, d, named, many))
]

resolve-finish_config :
    (decode : DecodeJson) (target : String) (files : List (String × String))
    → (middle : ResolvedConfig) → invalid_target target ≡ false
    → length (split_on 47 (dir (clean target))) ≤ config_depth_limit
    → apply_files decode files default_config (config_candidates (clean target)) ≡ ok middle
    → resolve_cascading_config decode target files ≡ finish_config middle
unfolding resolve_cascading_config
resolve-finish_config decode target files middle valid shallow e = ground (arith, valid, shallow, e)

-- For a target within the repository and the limit of depth, and files between the root and the
-- target that decode, the cascade gives a config, or, where these name more than ten different
-- context repositories, the error of that limit. The strictness of the config is the largest of
-- two and theirs, it fails on P0 exactly where a file asks for it, it disables exactly the rules
-- that a file disables, and it has exactly the context repositories that a file names, at most
-- ten.
pub resolve_cascading_config-IsRead :
    (decode : DecodeJson) (target : String) (files : List (String × String))
    → invalid_target target ≡ false
    → length (split_on 47 (dir (clean target))) ≤ config_depth_limit
    → All (Decodes decode files) (config_candidates (clean target))
    → (let given = inputs decode files (config_candidates (clean target)) in
        ((r : ResolvedConfig) × (resolve_cascading_config decode target files ≡ ok r)
          × IsApplied default_config given r
          × (length r.context_repos ≤ 10))
        ⊎ ((resolve_cascading_config decode target files
              ≡ err "resolved context.repos cannot exceed 10 repositories")
            × TooMany given))
resolve_cascading_config-IsRead decode target files valid shallow all =
    let (middle, e, d) =
      apply_files-ok decode files default_config (config_candidates (clean target)) all tt in
    rw (resolve-finish_config decode target files middle valid shallow e) (
      finished-IsRead (inputs decode files (config_candidates (clean target))) middle
        (apply_files-IsApplied decode files default_config (config_candidates (clean target)) middle
          e)
        d)
