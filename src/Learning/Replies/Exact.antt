-- ===== src/Learning/Replies/Exact.antt =====
-- internal/hosted/learning/replies.go: the replies that Process classifies.
use px.Prelude.{◌≡◌, refl, ◌↔◌, inl, inr, subst, false, some, arith, Result, ok, err, Result-cases}
use px.Llm.Request.{Response}
use px.Learning.Replies.{
  ReplyInput, ReplyClassification, ReplyModel, ReplyStore, ReplyProcessor, ReplyJson,
  decode_reply_classification, reply_request, answer_question, after_save, after_reply, process,
  invalid_reply_input, unbounded_input,
}
use px.Learning.Replies.Processed.{
  IsClassification, IsSaved, after_save-IsSaved, process-IsSaved, process-after_reply,
}

module _ {ℓ} {S : Type ℓ} (json : ReplyJson) (p : ReplyProcessor S) (model : ReplyModel S)
    (store : ReplyStore S) (input : ReplyInput) where
  -- The model's answer decodes to the classification.
  abbrev pub Classifies : Result Response → ReplyClassification → Type 0
  Classifies r d =
      (response : Response) × (r ≡ ok response)
      × (decode_reply_classification json response.text ≡ ok d)

  -- The input is valid and bounded, the model classifies it, and the classification is saved.
  pub record IsProcessed (s : S) (d : ReplyClassification) (after : S) : Type ℓ where
    pub valid : invalid_reply_input p input ≡ false
    pub bounded : unbounded_input input ≡ false
    pub classified : Classifies (model (reply_request json p input) s).1 d
    pub saved : IsSaved json p model store input (model (reply_request json p input) s).0 d after

  after_reply-Classifies :
      (s after : S) (r : Result Response) (d : ReplyClassification)
      → after_reply json p store input (s, r) ≡ (after, ok d)
      → Classifies r d
  unfolding after_reply
  after_reply-Classifies s after (err e) d h = absurd (ground (arith, h))
  after_reply-Classifies s after (ok response) d h =
      elim (Result-cases (decode_reply_classification json response.text)) [
        | inl (c, e) ↦
            let (same, saved) =
              after_save-IsSaved json p model store input s after c d (ground (arith, e)) in
            (
              response,
              refl,
              subst (λ c. decode_reply_classification json response.text ≡ ok c) same e,
            )
        | inr (x, e) ↦ absurd (ground (arith, h, e))
      ]

  after_save-saved :
      (s after : S) (d : ReplyClassification)
      → IsSaved json p model store input s d after
      → after_save p input d (store input d s) ≡ (after, ok d)
  unfolding after_save answer_question
  after_save-saved s after d (inl (kept, no_question, e)) = ground (arith, kept, no_question, e)
  after_save-saved s after d (inr (reply, given, kept, question, sent, e)) =
      ground (arith, given, kept, question, sent, e)

  after_reply-saved :
      (s after : S) (r : Result Response) (d : ReplyClassification)
      → Classifies r d
      → IsSaved json p model store input s d after
      → after_reply json p store input (s, r) ≡ (after, ok d)
  unfolding after_reply
  after_reply-saved s after r d (response, e, decoded) saved =
      rw (e, decoded) (after_save-saved s after d saved)

  process-saved :
      (s after : S) (d : ReplyClassification)
      → p.model ≡ some model
      → p.store ≡ some store
      → IsProcessed s d after
      → process json p input s ≡ (after, ok d)
  unfolding process
  process-saved s after d m k i =
      let asked = model (reply_request json p input) s in
      let run = after_reply-saved asked.0 after asked.1 d i.classified i.saved in
      ground (arith, m, k, i.valid, i.bounded, run)

  -- With a model and a store, Process answers a classification exactly where the input is valid
  -- and bounded, the answer of the model decodes to that classification, it is saved, and, for a
  -- question, then answered in its thread, neither with an error; the classification has a known
  -- kind, a confidence from 0 to 1 and a bounded answer exactly for a question.
  pub process-IsProcessed_iff :
      (s after : S) (d : ReplyClassification)
      → p.model ≡ some model
      → p.store ≡ some store
      → (process json p input s ≡ (after, ok d)) ↔ (IsProcessed s d after × IsClassification d)
  process-IsProcessed_iff s after d m k = (
    λ h.
        let (valid, small, classification, saved) =
          process-IsSaved json p model store input s after d m k h in
        let asked = model (reply_request json p input) s in
        let (fine, few, reply) = process-after_reply json p model store input s after d m k h in
        (
          record {
            valid = valid;
            bounded = small;
            classified = after_reply-Classifies asked.0 after asked.1 d reply;
            saved = saved;
          },
          classification,
        ),
    λ i. process-saved s after d m k i.0,
  )
