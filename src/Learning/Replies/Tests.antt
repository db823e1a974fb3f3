-- ===== src/Learning/Replies/Tests.antt =====
-- A question that is saved and answered; the state counts what was done.
use px.Prelude.{ℕ, suc, ◌≡◌, ◌↔◌, refl, false, none, some, ok}
use px.Prelude.Int.{pos}
use px.Prelude.Float.{half_f, one_f}
use px.Prelude.Text.{trim_space}
use px.Llm.Request.{no_usage}
use px.Learning.Replies.{
  ReplyInput, ReplyClassification, ReplyModel, ReplyStore, ThreadReplier, ReplyProcessor, ReplyJson,
  check_classification, decode_reply_classification, answer_question, after_save, after_reply,
  process, invalid_reply_input, unbounded_input,
}
use px.Learning.Replies.Exact.{IsProcessed, process-IsProcessed_iff}
use px.Learning.Replies.Processed.{IsClassification}

abbrev json : ReplyJson
json = record {
  encode_prompt = λ finding reply. "{}";
  decode =
      λ text. ok (record { kind = "question"; confidence = half_f; answer = " because " }, false);
}

abbrev answers : ReplyModel ℕ
answers request s =
    (suc s, ok (record { text = "{}"; usage = no_usage; request_id = "1"; cached = false }))

abbrev saves : ReplyStore ℕ
saves input c s = (suc s, none)

abbrev replies : ThreadReplier ℕ
replies installation_id comment_id answer s = (suc s, none)

abbrev processor : ReplyProcessor ℕ
processor = record {
  model = some answers;
  store = some saves;
  replier = some replies;
  provider = "openai";
  model_name = "m";
}

abbrev why : ReplyInput
why = record {
  installation_id = pos 1;
  repository_id = pos 2;
  finding_id = "f";
  comment_id = pos 3;
  actor_id = pos 4;
  finding = "off by one";
  reply = "why?";
}

abbrev because : ReplyClassification
because = record { kind = "question"; confidence = half_f; answer = "because" }

process-why : process json processor why 0 ≡ (3, ok because)
unfolding process invalid_reply_input unbounded_input after_reply after_save answer_question
    decode_reply_classification check_classification trim_space half_f one_f
process-why = refl

process-IsProcessed_iff_example :
    (process json processor why 0 ≡ (3, ok because))
    ↔ (IsProcessed json processor answers saves why 0 because 3 × IsClassification because)
process-IsProcessed_iff_example =
    process-IsProcessed_iff json processor answers saves why 0 3 because refl refl

-- The question is processed.
why-IsProcessed : IsProcessed json processor answers saves why 0 because 3
why-IsProcessed =
    ((process-IsProcessed_iff json processor answers saves why 0 3 because refl refl).0
      process-why).0
