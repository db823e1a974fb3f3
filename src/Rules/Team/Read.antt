-- ===== src/Rules/Team/Read.antt =====
-- artifact_rules.go: the rules that parseTeamRules reads.
use px.Prelude.{
  ℕ, suc, ◌+◌, ◌<◌, ◌≡◌, refl, ap, sym, subst, String, true, false, ◌||◌, Option, none, some, List,
  [], ◌∷◌, map, Result, ok, arith, length, eq_iff, Bool-cases, Result-cases, inl, inr,
}
use px.Prelude.Int.{ℤ, pos, eqb_ℤ}
use px.Prelude.Text.{show_ℕ}
use px.Prelude.Maps.{contains, add_key, contains-add_key, same_refl, Distinct, string_eq}
use px.Rules.Rule.{RuleInput, Texts, or_text, validate_rule}
use px.Rules.Team.{ReviewRule, team_rule, team_rules, parse_team_rules, with_rule, rule_place}
use px.Rules.Rule.Checked.{IsValidRule, validate_rule-IsValidRule}
use Prim.Native.String.{◌++◌ as concat}

abbrev pub ids : List ReviewRule → List String
ids = map (λ r. r.id)

module _ (t : Texts) where
  -- The rules stand for the first inputs, in order.
  abbrev pub Follows : List ReviewRule → List RuleInput → Type 0
  Follows [] inputs = Unit
  Follows (r ∷ rs) [] = ⊥
  Follows (r ∷ rs) (input ∷ inputs) =
      ((v : RuleInput) × (validate_rule t input ≡ ok v) × IsValidRule t v × (r ≡ team_rule r.id v))
      × Follows rs inputs

  pub record IsTeam (inputs : List RuleInput) (rules : List ReviewRule) (e : Option String)
      : Type 0 where
    pub distinct : Distinct (ids rules)
    pub follows : Follows rules inputs
    pub complete : e ≡ none → length rules ≡ length inputs
    pub stopped : (m : String) → e ≡ some m → length rules < length inputs

  team_rules-fresh :
      (i : ℕ) (seen : List String) (inputs : List RuleInput) (k : String)
      → contains k seen ≡ true
      → contains k (ids (team_rules t i seen inputs).0) ≡ false
  unfolding team_rules contains
  team_rules-fresh i seen [] k h = refl
  team_rules-fresh i seen (input ∷ inputs) k h = elim (Result-cases (validate_rule t input)) [
    | inr (m, f) ↦ ground (arith, f)
    | inl (valid, f) ↦
        let id = or_text valid.id (concat "team-" (show_ℕ (i + 1))) in
        elim (Bool-cases (contains id seen)) [
          | inl twice ↦ ground (arith, f, twice)
          | inr once ↦ ground (
            arith,
            f,
            once,
            eq_iff k id,
            contains-add_key k id seen,
            team_rules-fresh (i + 1) (add_key id seen) inputs k,
          )
        ]
  ]

  nothing :
      (input : RuleInput) (inputs : List RuleInput) (m : String)
      → IsTeam (input ∷ inputs) [] (some m)
  nothing input inputs m = record {
    distinct = tt;
    follows = tt;
    complete = λ h. absurd (cc);
    stopped = λ n h. omega arith;
  }

  team_rules-IsTeam :
      (i : ℕ) (seen : List String) (inputs : List RuleInput)
      → IsTeam inputs (team_rules t i seen inputs).0 (team_rules t i seen inputs).1
  unfolding team_rules
  team_rules-IsTeam i seen [] = record {
    distinct = tt;
    follows = tt;
    complete = λ h. refl;
    stopped = λ m h. cc;
  }
  team_rules-IsTeam i seen (input ∷ inputs) = elim (Result-cases (validate_rule t input)) [
    | inr (m, f) ↦
        let same : team_rules t i seen (input ∷ inputs) ≡ ([], some (rule_place i m)) =
          ground (arith, f) in
        subst (λ z. IsTeam (input ∷ inputs) z.0 z.1) (sym same)
          (nothing input inputs (rule_place i m))
    | inl (valid, f) ↦
        let id = or_text valid.id (concat "team-" (show_ℕ (i + 1))) in
        elim (Bool-cases (contains id seen)) [
          | inl twice ↦
              let e = rule_place i (concat "duplicate id " (t.quote id)) in
              let same : team_rules t i seen (input ∷ inputs) ≡ ([], some e) =
                ground (arith, f, twice) in
              subst (λ z. IsTeam (input ∷ inputs) z.0 z.1) (sym same) (nothing input inputs e)
          | inr once ↦
              let more = team_rules-IsTeam (i + 1) (add_key id seen) inputs in
              let same : team_rules t i seen (input ∷ inputs)
                  ≡ with_rule (team_rule id valid) (team_rules t (i + 1) (add_key id seen) inputs) =
                ground (arith, f, once) in
              let fresh =
                team_rules-fresh (i + 1) (add_key id seen) inputs id
                  (ground (arith, contains-add_key id id seen, same_refl id)) in
              let ok_rule = validate_rule-IsValidRule t input valid f in
              subst (λ z. IsTeam (input ∷ inputs) z.0 z.1) (sym same)
                (record {
                  distinct = (fresh, more.distinct);
                  follows = ((valid, f, ok_rule.0, refl), more.follows);
                  complete = λ h. ap suc (more.complete h);
                  stopped = λ m h. omega (arith, more.stopped m h);
                })
        ]
  ]

  -- Where the file decodes with version 0 or 1, the rules that parseTeamRules returns stand, in
  -- order, for the first rules of the file, each validated; their IDs are distinct; and it returns
  -- an error exactly if they are fewer than the rules of the file.
  pub parse_team_rules-IsTeam :
      (unmarshal : String → Result (ℤ × List RuleInput)) (body : String) (version : ℤ)
      (inputs : List RuleInput)
      → unmarshal body ≡ ok (version, inputs)
      → (eqb_ℤ version (pos 0) || eqb_ℤ version (pos 1)) ≡ true
      → IsTeam inputs (parse_team_rules t unmarshal body).0 (parse_team_rules t unmarshal body).1
  unfolding parse_team_rules
  parse_team_rules-IsTeam unmarshal body version inputs e known =
      let same : parse_team_rules t unmarshal body ≡ team_rules t 0 [] inputs =
        ground (arith, e, known) in
      subst (λ z. IsTeam inputs z.0 z.1) (sym same) (team_rules-IsTeam 0 [] inputs)
