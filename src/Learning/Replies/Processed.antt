-- ===== src/Learning/Replies/Processed.antt =====
-- What a reply that was processed leaves behind.
use px.Prelude.{
  ◌≡◌, ◌≤◌, subst, ◌⊎◌, inl, inr, String, len, true, false, not, none, some, arith, str_eq, Result,
  ok, err, Result-cases, Option-cases, Bool-cases,
}
use px.Prelude.Int.{◌≤ℤ◌}
use px.Prelude.Float.{zero_f, one_f}
use px.Llm.Request.{Response}
use px.Learning.Replies.{
  ReplyInput, ReplyClassification, ReplyModel, ReplyStore, ThreadReplier, ReplyProcessor, ReplyJson,
  known_kind, check_classification, decode_reply_classification, reply_request, answer_question,
  after_save, after_reply, process, invalid_reply_input, unbounded_input, trimmed,
}

-- A known kind, a confidence from 0 to 1, and an answer of at most 4000 bytes for a question only.
pub record IsClassification (c : ReplyClassification) : Type 0 where
  pub known : known_kind c.kind ≡ true
  pub confident : (zero_f ≤ℤ c.confidence) × (c.confidence ≤ℤ one_f)
  pub answered : str_eq c.kind "question" ≡ not (str_eq c.answer "")
  pub bounded : len c.answer ≤ 4000

check_classification-IsClassification :
    (given c : ReplyClassification) → check_classification given ≡ ok c → IsClassification c
unfolding check_classification
check_classification-IsClassification given c h =
    let e : trimmed given ≡ c = ground arith in
    subst IsClassification e (record {
      known = ground arith;
      confident = (ground arith, ground arith);
      answered = ground arith;
      bounded = ground arith;
    })

decode_reply_classification-IsClassification :
    (json : ReplyJson) (text : String) (c : ReplyClassification)
    → decode_reply_classification json text ≡ ok c
    → IsClassification c
unfolding decode_reply_classification
decode_reply_classification-IsClassification json text c h =
    elim (Result-cases (json.decode text)) [
      | inl (out, e) ↦ check_classification-IsClassification out.0 c (ground (arith, e))
      | inr (x, e) ↦ ground (arith, e)
    ]

module _ {ℓ} {S : Type ℓ} (json : ReplyJson) (p : ReplyProcessor S) (model : ReplyModel S)
    (store : ReplyStore S) (input : ReplyInput) where
  -- The state after a classification was saved without an error, and after its answer.
  abbrev pub IsSaved : S → ReplyClassification → S → Type ℓ
  IsSaved s c after =
      (((store input c s).1 ≡ none)
        × (str_eq c.kind "question" ≡ false)
        × (after ≡ (store input c s).0))
      ⊎ ((reply : ThreadReplier S) × (p.replier ≡ some reply)
          × ((store input c s).1 ≡ none)
          × (str_eq c.kind "question" ≡ true)
          × ((reply input.installation_id input.comment_id c.answer (store input c s).0).1 ≡ none)
          × (after ≡ (reply input.installation_id input.comment_id c.answer (store input c s).0).0))

  pub after_save-IsSaved :
      (s after : S) (c d : ReplyClassification)
      → after_save p input c (store input c s) ≡ (after, ok d)
      → (c ≡ d) × IsSaved s c after
  unfolding after_save answer_question
  after_save-IsSaved s after c d h = elim (Option-cases (store input c s).1) [
    | inl e ↦ elim (Bool-cases (str_eq c.kind "question")) [
      | inl q ↦ elim (Option-cases p.replier) [
        | inl none_given ↦ ground (arith, e, none_given)
        | inr (reply, given) ↦
            elim (Option-cases
              (reply input.installation_id input.comment_id c.answer (store input c s).0).1) [
                | inl sent ↦ (
                  ground (arith, e, given, sent),
                  inr (reply, given, e, q, sent, ground (arith, e, given, sent)),
                )
                | inr (x, failed) ↦ ground (arith, e, given, failed)
              ]
      ]
      | inr q ↦ (ground (arith, e), inl (e, q, ground (arith, e)))
    ]
    | inr (x, e) ↦ ground (arith, e)
  ]

  after_reply-IsSaved :
      (s after : S) (r : Result Response) (d : ReplyClassification)
      → after_reply json p store input (s, r) ≡ (after, ok d)
      → IsClassification d × IsSaved s d after
  unfolding after_reply
  after_reply-IsSaved s after (err e) d h = ground arith
  after_reply-IsSaved s after (ok response) d h =
      elim (Result-cases (decode_reply_classification json response.text)) [
        | inl (c, e) ↦
            let (same, saved) = after_save-IsSaved s after c d (ground (arith, e)) in
            (
              subst IsClassification same
                  (decode_reply_classification-IsClassification json response.text c e),
              subst (λ c. IsSaved s c after) same saved,
            )
        | inr (x, e) ↦ ground (arith, e)
      ]

  pub process-after_reply :
      (s after : S) (d : ReplyClassification)
      → p.model ≡ some model
      → p.store ≡ some store
      → process json p input s ≡ (after, ok d)
      → (invalid_reply_input p input ≡ false)
        × (unbounded_input input ≡ false)
        × (after_reply json p store input (model (reply_request json p input) s) ≡ (after, ok d))
  unfolding process
  process-after_reply s after d m k h =
      (ground (arith, m, k), ground (arith, m, k), ground (arith, m, k))

  -- Where Process answers a classification, the input was valid and bounded; the classification has a
  -- known kind, a confidence from 0 to 1 and a bounded answer exactly for a question; it was saved, and
  -- a question was then answered in its thread with that answer, neither with an error.
  pub process-IsSaved :
      (s after : S) (d : ReplyClassification)
      → p.model ≡ some model
      → p.store ≡ some store
      → process json p input s ≡ (after, ok d)
      → (invalid_reply_input p input ≡ false)
        × (unbounded_input input ≡ false)
        × IsClassification d
        × IsSaved (model (reply_request json p input) s).0 d after
  process-IsSaved s after d m k h =
      let (valid, small, reply) = process-after_reply s after d m k h in
      let asked = model (reply_request json p input) s in
      let (classified, saved) = after_reply-IsSaved asked.0 after asked.1 d reply in
      (valid, small, classified, saved)
