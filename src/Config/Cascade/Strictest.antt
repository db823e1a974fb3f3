-- ===== src/Config/Cascade/Strictest.antt =====
-- What a resolved config is, in terms of the files between the root and the target.
use px.Prelude.{
  ◌≡◌, ◌≤◌, refl, subst, ap, sym, ◌∙◌, ◌⊎◌, inl, inr, String, Bool, false, ◌||◌, Option, none, some,
  List, [], ◌∷◌, arith, str_eq, ok, err, Result-cases, Option-cases, any_of, All, Some, length,
}
use px.Prelude.Int.{ℤ, ◌≤ℤ◌}
use px.Prelude.Text.{str_lt}
use px.Prelude.Sort.{sort_by, length-sort_by}
use px.Prelude.Maps.{contains, contains-add_key, add_key, lookup, string_eq}
use px.Prelude.SetSort.{contains-sort_by}
use px.Prelude.Paths.{clean}
use px.Config.Decode.{ConfigInput, DecodeJson, decode_config, repository_key}
use px.Config.Cascade.{
  ResolvedConfig, default_config, config_candidates, add_rules, add_repositories, apply_config,
  apply_files, finish_config, resolve_cascading_config,
}

-- The inputs of the candidates that have a file, in their order.
unfoldable pub inputs : DecodeJson → List (String × String) → List String → List ConfigInput
inputs decode files [] = []
inputs decode files (candidate ∷ candidates) = elim (lookup candidate files) [
  | none ↦ inputs decode files candidates
  | some body ↦ elim (decode_config decode body) [
    | err e ↦ []
    | ok input ↦ input ∷ inputs decode files candidates
  ]
]

abbrev pub demands : ConfigInput → Bool
demands input = elim input.fail_on_p0 [ none ↦ false | some b ↦ b ]

abbrev pub names_repository : String → ConfigInput → Bool
names_repository key input = elim input.context [
  | none ↦ false
  | some repositories ↦ any_of (λ r. str_eq key (repository_key r)) repositories
]

-- The settings of `r` after the inputs were applied to those of `before`.
pub record IsApplied (before : ResolvedConfig) (given : List ConfigInput) (r : ResolvedConfig)
    : Type 0 where
  pub no_looser :
      (before.strictness ≤ℤ r.strictness)
      × All (λ i. (n : ℤ) → i.strictness ≡ some n → n ≤ℤ r.strictness) given
  pub reached :
      (r.strictness ≡ before.strictness) ⊎ Some (λ i. i.strictness ≡ some r.strictness) given
  pub fails : r.fail_on_p0 ≡ (before.fail_on_p0 || any_of demands given)
  pub rules :
      (id : String)
      → contains id r.disabled_rules
        ≡ (contains id before.disabled_rules || any_of (λ i. contains id i.disabled_rules) given)
  pub repositories :
      (key : String)
      → contains key r.context_repos
        ≡ (contains key before.context_repos || any_of (names_repository key) given)

contains-add_rules :
    (id : String) (set ids : List String)
    → contains id (add_rules set ids) ≡ (contains id set || contains id ids)
unfolding add_rules contains
contains-add_rules id set [] = ground arith
contains-add_rules id set (x ∷ xs) =
    ground (arith, contains-add_rules id (add_key x set) xs, contains-add_key id x set)

contains-add_repositories :
    (key : String) (set : List String) (o : Option (List String))
    → contains key (add_repositories set o) ≡ (
        contains key set
        || elim o [ none ↦ false | some rs ↦ any_of (λ r. str_eq key (repository_key r)) rs ])
unfolding add_repositories any_of
contains-add_repositories key set none = ground arith
contains-add_repositories key set (some []) = ground arith
contains-add_repositories key set (some (x ∷ xs)) = ground (
  arith,
  contains-add_repositories key (add_key (repository_key x) set) (some xs),
  contains-add_key key (repository_key x) set,
)

apply_config-settings :
    (before : ResolvedConfig) (candidate : String) (input : ConfigInput)
    → (before.strictness ≤ℤ (apply_config before candidate input).strictness)
      × ((n : ℤ)
          → input.strictness ≡ some n
          → n ≤ℤ (apply_config before candidate input).strictness)
      × (((apply_config before candidate input).strictness ≡ before.strictness)
          ⊎ (input.strictness ≡ some (apply_config before candidate input).strictness))
      × ((apply_config before candidate input).fail_on_p0 ≡ (before.fail_on_p0 || demands input))
unfolding apply_config
apply_config-settings before candidate input = elim (Option-cases input.strictness) [
  | inl e ↦ (ground (arith, e), λ n h. ground (arith, e), ground (arith, e), ground arith)
  | inr (m, e) ↦ (ground (arith, e), λ n h. ground (arith, e), ground (arith, e), ground arith)
]

apply_config-sets :
    (before : ResolvedConfig) (candidate : String) (input : ConfigInput) (key : String)
    → (contains key (apply_config before candidate input).disabled_rules
        ≡ (contains key before.disabled_rules || contains key input.disabled_rules))
      × (contains key (apply_config before candidate input).context_repos
          ≡ (contains key before.context_repos || names_repository key input))
unfolding apply_config
apply_config-sets before candidate input key = (
  contains-add_rules key before.disabled_rules input.disabled_rules,
  contains-add_repositories key before.context_repos input.context,
)

step-IsApplied :
    (before : ResolvedConfig) (candidate : String) (input : ConfigInput) (given : List ConfigInput)
    → (r : ResolvedConfig) → IsApplied (apply_config before candidate input) given r
    → IsApplied before (input ∷ given) r
unfolding any_of
step-IsApplied before candidate input given r i =
    let (above, bound, origin, fails) = apply_config-settings before candidate input in
    let (higher, others) = i.no_looser in
    record {
      no_looser = (omega arith, (λ n h. (let low = bound n h in omega arith), others));
      reached = elim i.reached [
        | inl e ↦ elim origin [ inl o ↦ inl (e ∙ o) | inr o ↦ inr (inl (o ∙ ap some (sym e))) ]
        | inr e ↦ inr (inr e)
      ];
      fails = ground (arith, i.fails, fails);
      rules = λ id. ground (arith, i.rules id, (apply_config-sets before candidate input id).0);
      repositories = λ key.
          ground (arith, i.repositories key, (apply_config-sets before candidate input key).1);
    }

pub apply_files-IsApplied :
    (decode : DecodeJson) (files : List (String × String)) (before : ResolvedConfig)
    → (candidates : List String) (r : ResolvedConfig)
    → apply_files decode files before candidates ≡ ok r
    → IsApplied before (inputs decode files candidates) r
unfolding apply_files inputs any_of
apply_files-IsApplied decode files before [] r h =
    let same : before ≡ r = ground arith in
    subst (IsApplied before []) same (record {
      no_looser = (omega arith, tt);
      reached = inl refl;
      fails = ground arith;
      rules = λ id. ground arith;
      repositories = λ key. ground arith;
    })
apply_files-IsApplied decode files before (c ∷ cs) r h = elim (Option-cases (lookup c files)) [
  | inl e ↦ rw (inputs, e) (apply_files-IsApplied decode files before cs r (ground (arith, e)))
  | inr (body, e) ↦ elim (Result-cases (decode_config decode body)) [
    | inl (input, d) ↦
        rw (inputs, e, d)
          (step-IsApplied before c input (inputs decode files cs) r (
            apply_files-IsApplied decode files (apply_config before c input) cs r
              (ground (arith, e, d))))
    | inr (x, d) ↦ ground (arith, e, d)
  ]
]

pub finish_config-IsApplied :
    (before middle r : ResolvedConfig) (given : List ConfigInput)
    → finish_config middle ≡ ok r
    → IsApplied before given middle
    → IsApplied before given r × (length r.context_repos ≤ 10)
unfolding finish_config
finish_config-IsApplied before middle r given h i =
    let e : record middle {
      disabled_rules = sort_by str_lt middle.disabled_rules;
      context_repos = sort_by str_lt middle.context_repos;
    }
        ≡ r =
      ground arith in
    subst (λ r. IsApplied before given r × (length r.context_repos ≤ 10)) e
      (
        record {
          no_looser = i.no_looser;
          reached = i.reached;
          fails = i.fails;
          rules = λ id. contains-sort_by str_lt id middle.disabled_rules ∙ i.rules id;
          repositories =
              λ key. contains-sort_by str_lt key middle.context_repos ∙ i.repositories key;
        },
        ground (arith, length-sort_by str_lt middle.context_repos),
      )

-- A resolved config comes from the config files between the root and the target: its strictness is at
-- least the default of two and that of each file, and is one of these; it fails on P0 exactly where a
-- file asks for it; it disables exactly the rules that a file disables, and has exactly the context
-- repositories that a file names, at most ten.
pub resolve_cascading_config-IsApplied :
    (decode : DecodeJson) (target : String) (files : List (String × String)) (r : ResolvedConfig)
    → resolve_cascading_config decode target files ≡ ok r
    → IsApplied default_config (inputs decode files (config_candidates (clean target))) r
      × (length r.context_repos ≤ 10)
unfolding resolve_cascading_config
resolve_cascading_config-IsApplied decode target files r h =
    elim (Result-cases
      (apply_files decode files default_config (config_candidates (clean target)))) [
        | inl (middle, e) ↦
            finish_config-IsApplied default_config middle r
              (inputs decode files (config_candidates (clean target))) (ground (arith, e))
              (apply_files-IsApplied decode files default_config (config_candidates (clean target))
                middle e)
        | inr (x, e) ↦ ground (arith, e)
      ]
