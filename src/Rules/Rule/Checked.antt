-- ===== src/Rules/Rule/Checked.antt =====
-- artifact_rules.go: the rules that validateRule accepts.
use px.Prelude.{
  ℕ, suc, ◌+◌, ◌≤◌, ◌≡◌, refl, ap, sym, subst, String, len, true, false, not, ◌&&◌, ◌||◌, none,
  List, [], ◌∷◌, ok, arith, ltb, if◌then◌else◌, length, str_eq, All, Bool-cases, Result-cases, inl,
  inr,
}
use px.Prelude.Text.{trim_space}
use px.Rules.Globs.{codes, quote_meta}
use px.Rules.Rule.{
  RuleInput, Texts, trim_rule, merge_match, trim_texts, glob_error, check_pattern, valid_id,
  with_kind, known_severity, with_defaults, check_globs, finish_rule, validate_rule,
}

module _ (t : Texts) where
  -- A glob within its length that compiles.
  abbrev pub IsGlob : String → Type 0
  IsGlob g = (len g ≤ 200) × (glob_error t g ≡ none)

  -- What the checks of the pattern, the glob and the message leave.
  pub record IsChecked (r : RuleInput) : Type 0 where
    pub some_pattern : str_eq r.pattern "" ≡ false
    pub short_pattern : len r.pattern ≤ 300
    pub compiles : t.compile_error (codes r.pattern) ≡ none
    pub selective : t.found_in (codes r.pattern) "" ≡ false
    pub one_glob : IsGlob r.glob
    pub some_message : str_eq r.message "" ≡ false

  -- A rule as the program keeps it.
  pub record IsValidRule (r : RuleInput) : Type 0 where
    pub checked : IsChecked r
    pub id : (str_eq r.id "" || valid_id t r.id) ≡ true
    pub severity : known_severity t r.severity ≡ true
    pub title : str_eq r.title "" ≡ false
    pub few_globs : length r.globs ≤ 20
    pub globs : All IsGlob r.globs

  check_pattern-IsChecked : (r : RuleInput) → check_pattern t r ≡ ok tt → IsChecked r
  unfolding check_pattern
  check_pattern-IsChecked r e = ground arith

  check_globs-IsGlob :
      (i : ℕ) (gs out : List String)
      → check_globs t i gs ≡ ok out
      → All IsGlob out × (length out ≡ length gs)
  unfolding check_globs
  check_globs-IsGlob i [] out e =
      let same : [] ≡ out = ground arith in
      subst (λ xs. All IsGlob xs × (length xs ≡ 0)) same (tt, refl)
  check_globs-IsGlob i (g ∷ gs) out e = elim (Result-cases (check_globs t (i + 1) gs)) [
    | inr (m, f) ↦ absurd (ground (arith, f))
    | inl (rest, f) ↦
        let (globs, many) = check_globs-IsGlob (i + 1) gs rest f in
        let good : IsGlob (trim_space g) = ground (arith, f) in
        let same : trim_space g ∷ rest ≡ out = ground (arith, f) in
        subst (λ xs. All IsGlob xs × (length xs ≡ suc (length gs))) same
          ((good, globs), ap suc many)
  ]

  -- The pattern that a rule writes: that of `match`, quoted if it is a text, or its own.
  abbrev pub written_pattern : RuleInput → String
  written_pattern r =
      let kind = t.to_lower (trim_space r.match_kind) in
      let pattern = trim_space r.match_pattern in
      if str_eq pattern ""
      then r.pattern
      else (if str_eq kind "text" || str_eq kind "block-text" then quote_meta pattern else pattern)

  merge_match-pattern :
      (input merged : RuleInput)
      → merge_match t (trim_rule t input) ≡ ok merged
      → merged.pattern ≡ written_pattern input
  unfolding merge_match trim_rule
  merge_match-pattern input merged e = ground arith

  -- What `finishRule` leaves of a rule: its globs, each trimmed, and the title and the reason if it
  -- has none.
  finish_rule-globs :
      (r out : RuleInput)
      → finish_rule t r ≡ ok out
      → (known_severity t r.severity ≡ true)
        × (length out.globs ≤ 20)
        × All IsGlob out.globs
        × (out ≡ record (with_defaults t r) { globs = out.globs })
  finish_rule-globs r out e = elim (Bool-cases (known_severity t r.severity)) [
    | inr bad ↦ absurd (ground (arith, bad))
    | inl known ↦ elim (Bool-cases (ltb 20 (length (with_defaults t r).globs))) [
      | inl many ↦ absurd (ground (arith, known, many))
      | inr few ↦ elim (Result-cases (check_globs t 0 (with_defaults t r).globs)) [
        | inr (m, f) ↦ absurd (ground (arith, known, few, f))
        | inl (globs, f) ↦
            let (good, length_kept) = check_globs-IsGlob 0 (with_defaults t r).globs globs f in
            let few_globs : length globs ≤ 20 = ground (arith, few, length_kept) in
            let same : record (with_defaults t r) { globs = globs } ≡ out =
              ground (arith, known, few, f) in
            subst
              (λ o.
                (known_severity t r.severity ≡ true)
                × (length o.globs ≤ 20)
                × All IsGlob o.globs
                × (o ≡ record (with_defaults t r) { globs = o.globs }))
              same (known, few_globs, good, refl)
      ]
    ]
  ]

  accepted :
      (r : RuleInput) (pattern : String) (out : RuleInput)
      → IsChecked r
      → (not (str_eq r.id "") && not (valid_id t r.id)) ≡ false
      → known_severity t (with_kind t r).severity ≡ true
      → length out.globs ≤ 20
      → All IsGlob out.globs
      → out ≡ record (with_defaults t (with_kind t r)) { globs = out.globs }
      → r.pattern ≡ trim_space pattern
      → IsValidRule out × (out.pattern ≡ trim_space pattern)
  unfolding with_defaults with_kind
  accepted r pattern out checked good known few globs same written =
      subst (λ o. IsValidRule o × (o.pattern ≡ trim_space pattern)) (sym same)
        (
          record {
            checked = record {
              some_pattern = checked.some_pattern;
              short_pattern = checked.short_pattern;
              compiles = checked.compiles;
              selective = checked.selective;
              one_glob = checked.one_glob;
              some_message = checked.some_message;
            };
            id = ground (arith, good);
            severity = known;
            title = ground (arith, checked.some_message);
            few_globs = few;
            globs = globs;
          },
          written,
        )

  -- A rule that validateRule accepts has a pattern of 1 to 300 bytes that compiles and does not
  -- match the empty line, namely the trimmed one that the input writes (that of match, quoted if
  -- it is a text, or else its own); a glob of up to 200 bytes that compiles; a message and a
  -- title; an ID that is empty or well formed; the severity info, warning or error; and up to 20
  -- globs, each of up to 200 bytes and compiling.
  pub validate_rule-IsValidRule :
      (input out : RuleInput)
      → validate_rule t input ≡ ok out
      → IsValidRule out × (out.pattern ≡ trim_space (written_pattern input))
  unfolding validate_rule trim_texts
  validate_rule-IsValidRule input out e = elim (Result-cases (merge_match t (trim_rule t input))) [
    | inr (m, f) ↦ absurd (ground (arith, f))
    | inl (merged, f) ↦
        let r = trim_texts t merged in
        elim (Result-cases (check_pattern t r)) [
          | inr (m, g) ↦ absurd (ground (arith, f, g))
          | inl (done, g) ↦ elim (Bool-cases (not (str_eq r.id "") && not (valid_id t r.id))) [
            | inl bad ↦ absurd (ground (arith, f, g, bad))
            | inr good ↦
                let finished : finish_rule t (with_kind t r) ≡ ok out =
                  ground (arith, f, g, good) in
                let (known, few, globs, same) = finish_rule-globs (with_kind t r) out finished in
                let checked = check_pattern-IsChecked r g in
                accepted r (written_pattern input) out checked good known few globs same
                  (ap trim_space (merge_match-pattern input merged f))
          ]
        ]
  ]
