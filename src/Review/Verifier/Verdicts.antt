-- ===== src/Review/Verifier/Verdicts.antt =====
-- What a verification that returns no error keeps.
use mathlib.Core.Path.{fun_ext}
use px.Prelude.{
  ◌≡◌, refl, ap, sym, ◌∙◌, Bool, false, not, String, Option, none, some, List, [], ◌∷◌, ◌++◌, map,
  arith, str_eq, if◌then◌else◌, Option-cases, inl, inr, Result-cases, ok, keep_if, append-nil,
  append_assoc,
}
use px.Prelude.Float.{Float}
use px.Prelude.Maps.{lookup, insert, lookup-insert, add_key, string_eq}
use px.Review.Verifier.{
  VerificationCandidate, VerificationDecision, VerificationResult, FindingVerifier, Services,
  Decisions, lacks_evidence, screen, index_decisions, decode_decisions, settle, settle_all,
  accepted, threshold_of, request_of, conclude, ask, after_screen, verify,
}

-- The last decision that the model gave on an ID.
unfoldable pub decision_on : String → List VerificationDecision → Option VerificationDecision
decision_on id [] = none
decision_on id (d ∷ ds) = elim (decision_on id ds) [
  | none ↦ if str_eq id d.id then some d else none
  | some e ↦ some e
]

-- The model supports the candidate with at least the confidence asked for.
unfoldable pub is_confirmed : Float → List VerificationDecision → VerificationCandidate → Bool
is_confirmed threshold ds c = elim (decision_on c.id ds) [
  | none ↦ false
  | some d ↦ accepted threshold d
]

screen-eligible :
    (seen : List String) (dropped dropped' : List (String × String))
    → (eligible eligible' candidates : List VerificationCandidate)
    → screen seen dropped eligible candidates ≡ (none, dropped', eligible')
    → eligible' ≡ eligible ++ keep_if (λ c. not (lacks_evidence c)) candidates
unfolding screen keep_if
screen-eligible seen dropped dropped' eligible eligible' [] h = ground (arith, append-nil eligible)
screen-eligible seen dropped dropped' eligible eligible' (c ∷ cs) h =
    let fine = keep_if (λ c. not (lacks_evidence c)) cs in
    let seen' = add_key c.id seen in
    ground (
      arith,
      screen-eligible seen' (insert c.id "missing line evidence" dropped) dropped' eligible
          eligible' cs,
      screen-eligible seen' dropped dropped' (eligible ++ c ∷ []) eligible' cs,
      append_assoc eligible (c ∷ []) fine,
    )

-- The same, by the index of decisions.
abbrev confirmed_in : Float → Decisions → VerificationCandidate → Bool
confirmed_in threshold by_id c = elim (lookup c.id by_id) [
  | none ↦ false
  | some d ↦ accepted threshold d
]

settle_all-kept :
    (quote : String → String) (threshold : Float) (by_id : Decisions) (r r' : VerificationResult)
    → (eligible : List VerificationCandidate)
    → settle_all quote threshold by_id r eligible ≡ (r', none)
    → r'.kept ≡ r.kept ++ keep_if (confirmed_in threshold by_id) eligible
unfolding settle_all keep_if settle
settle_all-kept quote threshold by_id r r' [] h = ground (arith, append-nil r.kept)
settle_all-kept quote threshold by_id r r' (c ∷ cs) h = elim (Option-cases (lookup c.id by_id)) [
  | inl missing ↦ ground arith
  | inr (d, found) ↦
      let passed = keep_if (confirmed_in threshold by_id) cs in
      ground (
        arith,
        settle_all-kept quote threshold by_id (settle threshold c d r) r' cs,
        append_assoc r.kept (c ∷ []) passed,
      )
]

-- The index answers, for an ID, the last decision on it.
index_decisions-lookup :
    (quote : String → String) (ids : List String) (by_id by_id' : Decisions)
    → (ds : List VerificationDecision) (k : String) → index_decisions quote ids by_id ds ≡ ok by_id'
    → lookup k by_id' ≡ elim (decision_on k ds) [ none ↦ lookup k by_id | some e ↦ some e ]
unfolding index_decisions decision_on
index_decisions-lookup quote ids by_id by_id' [] k h = ground arith
index_decisions-lookup quote ids by_id by_id' (d ∷ ds) k h = ground (
  arith,
  index_decisions-lookup quote ids (insert d.id d by_id) by_id' ds k,
  lookup-insert d.id k d by_id,
)

settle_all-decisions :
    (quote : String → String) (threshold : Float) (by_id : Decisions) (r r' : VerificationResult)
    → (eligible : List VerificationCandidate)
    → settle_all quote threshold by_id r eligible ≡ (r', none)
    → r'.decisions ≡ r.decisions
unfolding settle_all settle
settle_all-decisions quote threshold by_id r r' [] h = ground arith
settle_all-decisions quote threshold by_id r r' (c ∷ cs) h =
    elim (Option-cases (lookup c.id by_id)) [
      | inl missing ↦ ground arith
      | inr (d, found) ↦
          ground (arith, settle_all-decisions quote threshold by_id (settle threshold c d r) r' cs)
    ]

module _ (s : Services) (v : FindingVerifier) (eligible : List VerificationCandidate)
    (r r' : VerificationResult) (fresh : r.kept ≡ []) where
  with_index :
      (ds : List VerificationDecision) (by_id : Decisions)
      → index_decisions s.quote (map (λ c. c.id) eligible) [] ds ≡ ok by_id
      → confirmed_in (threshold_of v) by_id ≡ is_confirmed (threshold_of v) ds
  unfolding is_confirmed lookup
  with_index ds by_id e = fun_ext λ c.
      ground (arith, index_decisions-lookup s.quote (map (λ c. c.id) eligible) [] by_id ds c.id e)

  settled_index :
      (ds : List VerificationDecision) (by_id : Decisions)
      → index_decisions s.quote (map (λ c. c.id) eligible) [] ds ≡ ok by_id
      → settle_all s.quote (threshold_of v) by_id (record r { decisions = ds }) eligible
        ≡ (r', none)
      → r'.kept ≡ keep_if (is_confirmed (threshold_of v) r'.decisions) eligible
  settled_index ds by_id e h =
      let start : VerificationResult = record r { decisions = ds } in
      let threshold = threshold_of v in
      settle_all-kept s.quote threshold by_id start r' eligible h
      ∙ ap (λ k. k ++ keep_if (confirmed_in threshold by_id) eligible) fresh
      ∙ ap (λ (p : VerificationCandidate → Bool). keep_if p eligible) (with_index ds by_id e)
      ∙ ap (λ d. keep_if (is_confirmed threshold d) eligible)
          (sym (settle_all-decisions s.quote threshold by_id start r' eligible h))

  conclude-kept :
      (ds : List VerificationDecision)
      → conclude s v eligible r ds ≡ (r', none)
      → r'.kept ≡ keep_if (is_confirmed (threshold_of v) r'.decisions) eligible
  unfolding conclude
  conclude-kept ds h =
      elim (Result-cases (index_decisions s.quote (map (λ c. c.id) eligible) [] ds)) [
        | inl (by_id, e) ↦ ground (arith, settled_index ds by_id e)
        | inr (e, failed) ↦ ground arith
      ]

  ask-kept :
      ask s v eligible r ≡ (r', none)
      → r'.kept ≡ keep_if (is_confirmed (threshold_of v) r'.decisions) eligible
  unfolding ask
  ask-kept h = elim (Result-cases (s.complete (request_of s v eligible))) [
    | inl (text, e) ↦ elim (Result-cases (decode_decisions (s.decode_json text))) [
      | inl (ds, d) ↦ ground (arith, conclude-kept ds)
      | inr (x, d) ↦ ground arith
    ]
    | inr (x, e) ↦ ground arith
  ]

after_screen-kept :
    (s : Services) (v : FindingVerifier) (o : Option String) (dropped : List (String × String))
    → (eligible : List VerificationCandidate) (r : VerificationResult)
    → after_screen s v (o, dropped, eligible) ≡ (r, none)
    → (o ≡ none) × (r.kept ≡ keep_if (is_confirmed (threshold_of v) r.decisions) eligible)
unfolding after_screen keep_if
after_screen-kept s v (some e) dropped eligible r h = cc
after_screen-kept s v none dropped [] r h = (refl, ground arith)
after_screen-kept s v none dropped (c ∷ cs) r h =
    let start : VerificationResult = record { kept = []; dropped = dropped; decisions = [] } in
    (refl, ground (arith, ask-kept s v (c ∷ cs) start r refl))

-- When a verification returns no error it has kept exactly the candidates with line evidence that the
-- model's last decision on them supports with the confidence asked for, in their order.
pub verify-kept :
    (s : Services) (v : FindingVerifier) (candidates : List VerificationCandidate)
    → (r : VerificationResult) → verify s v candidates ≡ (r, none)
    → r.kept
      ≡ keep_if
          (is_confirmed (threshold_of v) r.decisions)
          (keep_if (λ c. not (lacks_evidence c)) candidates)
unfolding verify
verify-kept s v candidates r h =
    let (o, dropped, eligible) = screen [] [] [] candidates in
    let (fine, kept) = after_screen-kept s v o dropped eligible r h in
    kept
    ∙ ap (keep_if (is_confirmed (threshold_of v) r.decisions))
        (screen-eligible [] [] dropped [] eligible candidates (λ i. (fine i, dropped, eligible)))
