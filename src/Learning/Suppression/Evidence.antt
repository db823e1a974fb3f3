-- ===== src/Learning/Suppression/Evidence.antt =====
-- internal/hosted/learning/suppression.go: the evidence of a decision against the events.
use px.Prelude.{
  ◌*◌, ◌^◌, ◌≡◌, refl, ap, sym, ◌∙◌, ◌⊎◌, String, Bool, true, false, not, ◌&&◌, ◌||◌, List, [], ◌∷◌,
  err, arith, str_eq, ok, Bool-cases, inl, inr, length, any_of,
}
use px.Prelude.Int.{ℤ, pos, ltb_ℤ, leb_ℤ, eqb_ℤ, eqb_ℤ-iff, ◌-ℤ◌, ◌≤ℤ◌}
use px.Prelude.Maps.{contains, Distinct, int_eq}
use px.Prelude.SetSort.{contains-sort_by, sort_by-Distinct}
use px.Learning.Suppression.{
  SuppressionFinding, NoiseEvent, SuppressionConfig, SuppressionDecision, Match, invalid_finding,
  is_protected, suppression_threshold, window_of, glob_of, qualifies, collect, evidence_of, weigh,
  decide_in_scope, decide_suppression, stay_visible,
}

contains-collect :
    (counts : NoiseEvent → Bool) (id : ℤ) (seen : List ℤ) (events : List NoiseEvent)
    → contains id (collect counts seen events)
      ≡ (not (contains id seen) && any_of (λ e. counts e && eqb_ℤ id e.id) events)
unfolding collect contains any_of
contains-collect counts id seen [] = ground arith
contains-collect counts id seen (e ∷ es) = ground (
  arith,
  contains-collect counts id (e.id ∷ seen) es,
  contains-collect counts id seen es,
  eqb_ℤ-iff id e.id,
)

collect-Distinct :
    (counts : NoiseEvent → Bool) (seen : List ℤ) (events : List NoiseEvent)
    → Distinct (collect counts seen events)
unfolding collect contains
collect-Distinct counts seen [] = tt
collect-Distinct counts seen (e ∷ es) = elim (Bool-cases (counts e && not (contains e.id seen))) [
  | inl new ↦ rw new (
    ground (arith, contains-collect counts e.id (e.id ∷ seen) es, eqb_ℤ-iff e.id e.id),
    collect-Distinct counts (e.id ∷ seen) es,
  )
  | inr old ↦ rw old (collect-Distinct counts seen es)
]

-- The path lies in the scope of the configuration: every path does under `**`, and any other glob must
-- match it.
abbrev pub has_scope : Match → SuppressionConfig → String → Bool
has_scope match config path =
    str_eq (glob_of config) "**"
    || elim (match (glob_of config) path) [ ok matched ↦ matched | err e ↦ false ]

-- The event has this positive ID, is an ignored or thumbs_down event of the category within the window
-- up to now, and lies in scope.
abbrev pub counts_as : Match → SuppressionFinding → SuppressionConfig → ℤ → ℤ → NoiseEvent → Bool
counts_as match finding config now id e =
    eqb_ℤ id e.id
    && ltb_ℤ (pos 0) e.id
    && str_eq e.category finding.category
    && leb_ℤ (now -ℤ window_of config) e.occurred_at
    && leb_ℤ e.occurred_at now
    && (str_eq e.kind "ignored" || str_eq e.kind "thumbs_down")
    && has_scope match config e.path

counts_as_lem :
    (match : Match) (finding : SuppressionFinding) (config : SuppressionConfig) (now id : ℤ)
    → (events : List NoiseEvent)
    → any_of
        (λ e.
          qualifies match (glob_of config) finding (now -ℤ window_of config) now e && eqb_ℤ id e.id)
        events
      ≡ any_of (counts_as match finding config now id) events
unfolding qualifies any_of
counts_as_lem match finding config now id [] = refl
counts_as_lem match finding config now id (e ∷ es) =
    ground (arith, counts_as_lem match finding config now id es)

evidence_of_lem :
    (match : Match) (finding : SuppressionFinding) (events : List NoiseEvent)
    (config : SuppressionConfig)
    → (now id : ℤ)
    → contains id (evidence_of match finding events config now)
      ≡ any_of (counts_as match finding config now id) events
unfolding contains
evidence_of_lem match finding events config now id =
    contains-sort_by ltb_ℤ id
      (collect (qualifies match (glob_of config) finding (now -ℤ window_of config) now) [] events)
    ∙ contains-collect (qualifies match (glob_of config) finding (now -ℤ window_of config) now) id
        [] events
    ∙ counts_as_lem match finding config now id events

-- What a decision holds.
pub record IsDecided (match : Match) (finding : SuppressionFinding) (events : List NoiseEvent)
    (config : SuppressionConfig) (now : ℤ) (d : SuppressionDecision) : Type 0 where
  pub visible : is_protected finding ≡ true → d.suppress ≡ false
  pub enough :
      d.suppress ≡ true
      → (pos 3 ≤ℤ pos (length d.evidence_ids))
        × (suppression_threshold config ≤ℤ pos (length d.evidence_ids))
  pub once : Distinct d.evidence_ids
  pub counted :
      (id : ℤ)
      → contains id d.evidence_ids ≡ true
      → any_of (counts_as match finding config now id) events ≡ true
  pub outside : has_scope match config finding.path ≡ false → d.suppress ≡ false
  pub complete :
      is_protected finding ≡ false
      → has_scope match config finding.path ≡ true
      → (d.suppress ≡ leb_ℤ (suppression_threshold config) (pos (length d.evidence_ids)))
        × ((id : ℤ)
            → contains id d.evidence_ids ≡ any_of (counts_as match finding config now id) events)

stay_visible-IsDecided :
    (match : Match) (finding : SuppressionFinding) (events : List NoiseEvent)
    → (config : SuppressionConfig) (now : ℤ) (reason : String)
    → (is_protected finding ≡ true) ⊎ (has_scope match config finding.path ≡ false)
    → IsDecided match finding events config now (stay_visible reason)
unfolding contains
stay_visible-IsDecided match finding events config now reason why = record {
  visible = λ p. refl;
  enough = λ p. ground arith;
  once = tt;
  counted = λ id p. ground arith;
  outside = λ p. refl;
  complete = λ p m. ground arith;
}

weigh-evidence :
    (threshold : ℤ) (ids : List ℤ)
    → ((weigh threshold ids).suppress ≡ leb_ℤ threshold (pos (length ids)))
      × ((weigh threshold ids).evidence_ids ≡ ids)
unfolding weigh
weigh-evidence threshold ids = ground arith

weighed-IsDecided :
    (match : Match) (finding : SuppressionFinding) (events : List NoiseEvent)
    → (config : SuppressionConfig) (now : ℤ) (d : SuppressionDecision)
    → is_protected finding ≡ false
    → pos 3 ≤ℤ suppression_threshold config
    → has_scope match config finding.path ≡ true
    → d.suppress ≡ leb_ℤ (suppression_threshold config) (pos (length d.evidence_ids))
    → d.evidence_ids ≡ evidence_of match finding events config now
    → IsDecided match finding events config now d
weighed-IsDecided match finding events config now d lower high scope s e = record {
  visible = λ p. ground arith;
  enough = λ p. ground arith;
  once = rw e (
      sort_by-Distinct ltb_ℤ
        (collect (qualifies match (glob_of config) finding (now -ℤ window_of config) now) [] events)
        (collect-Distinct (qualifies match (glob_of config) finding (now -ℤ window_of config) now)
          [] events));
  counted = λ id p.
      sym (evidence_of_lem match finding events config now id) ∙ ap (contains id) (sym e) ∙ p;
  outside = λ p. ground (arith, scope);
  complete =
      λ p m. (s, λ id. ap (contains id) e ∙ evidence_of_lem match finding events config now id);
}

-- The threshold and window that the code accepts, for a finding it knows.
abbrev pub is_valid : SuppressionFinding → SuppressionConfig → ℤ → Bool
is_valid finding config now =
    not (invalid_finding finding now)
    && not (ltb_ℤ (suppression_threshold config) (pos 3))
    && not (leb_ℤ (window_of config) (pos 0))
    && leb_ℤ (window_of config) (pos (365 * 24 * 3600 * 10 ^ 9))

decide_in_scope-IsDecided :
    (match : Match) (finding : SuppressionFinding) (events : List NoiseEvent)
    → (config : SuppressionConfig) (now : ℤ) (matched : Bool) → is_protected finding ≡ false
    → pos 3 ≤ℤ suppression_threshold config
    → match (glob_of config) finding.path ≡ ok matched
    → (d : SuppressionDecision) × (decide_in_scope match finding events config now (ok matched)
        ≡ ok d)
      × IsDecided match finding events config now d
unfolding decide_in_scope
decide_in_scope-IsDecided match finding events config now matched lower high m =
    elim (Bool-cases (not matched && not (str_eq (glob_of config) "**"))) [
      | inl e ↦ (
        stay_visible "finding is outside the configured path scope",
        ground arith,
        stay_visible-IsDecided match finding events config now
            "finding is outside the configured path scope" (inr (ground (arith, m, e))),
      )
      | inr e ↦ (
        weigh (suppression_threshold config) (evidence_of match finding events config now),
        ground arith,
        (let (s, w) =
              weigh-evidence (suppression_threshold config)
                (evidence_of match finding events config now) in
            weighed-IsDecided match finding events config now
              (weigh (suppression_threshold config) (evidence_of match finding events config now))
              lower high (ground (arith, m, e))
              (s ∙ ap (λ ids. leb_ℤ (suppression_threshold config) (pos (length ids))) (sym w)) w),
      )
    ]

decide_suppression-decide_in_scope :
    (match : Match) (finding : SuppressionFinding) (events : List NoiseEvent)
    → (config : SuppressionConfig) (now : ℤ) (matched : Bool) → is_valid finding config now ≡ true
    → match (glob_of config) finding.path ≡ ok matched
    → is_protected finding ≡ false
    → (decide_suppression match finding events config now
        ≡ decide_in_scope match finding events config now (ok matched))
      × (pos 3 ≤ℤ suppression_threshold config)
unfolding decide_suppression
decide_suppression-decide_in_scope match finding events config now matched valid m p =
    (rw (p, m) (ground arith), ground arith)

-- For a known finding and an accepted configuration whose glob can be matched, DecideSuppression
-- decides. A protected finding, or one out of scope, stays visible; the scope is every path under
-- the glob of two stars, which is the default, and else the paths that the glob matches. A finding
-- is suppressed only on at least three and at least the threshold of distinct events that count,
-- and an unprotected finding in scope exactly where the events that count have that many IDs:
-- ignored or thumbs_down events with a positive ID, of its category, within the window and in
-- scope.
pub decide_suppression-IsDecided :
    (match : Match) (finding : SuppressionFinding) (events : List NoiseEvent)
    → (config : SuppressionConfig) (now : ℤ) (matched : Bool) → is_valid finding config now ≡ true
    → match (glob_of config) finding.path ≡ ok matched
    → (d : SuppressionDecision) × (decide_suppression match finding events config now ≡ ok d)
      × IsDecided match finding events config now d
unfolding decide_suppression
decide_suppression-IsDecided match finding events config now matched valid m =
    elim (Bool-cases (is_protected finding)) [
      | inl p ↦ (
        stay_visible "protected finding categories are never auto-suppressed",
        ground arith,
        stay_visible-IsDecided match finding events config now
            "protected finding categories are never auto-suppressed" (inl p),
      )
      | inr p ↦
          let (reduced, high) =
            decide_suppression-decide_in_scope match finding events config now matched valid m p in
          let (d, e, h) =
            decide_in_scope-IsDecided match finding events config now matched p high m in
          (d, reduced ∙ e, h)
    ]
