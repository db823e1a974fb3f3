-- ===== src/Review/Verifier.antt =====
-- internal/hosted/review/verifier.go: the second model call that confirms or drops findings.
pub mod Verdicts
mod Tests
use Prim.Native.String.{◌++◌ as concat}
use px.Prelude.{
  ℕ, String, Bool, true, false, not, ◌&&◌, ◌||◌, Option, none, some, List, [], ◌∷◌, ◌++◌, map,
  str_eq, if◌then◌else◌, Result, ok, err, ◌>>=◌, ◌>>◌, refuse_if,
}
use px.Prelude.Int.{ℤ, pos, ltb_ℤ, leb_ℤ}
use px.Prelude.Float.{Float, zero_f, one_f, three_fifths_f, ltb_f}
use px.Prelude.Text.{is_blank}
use px.Prelude.Maps.{contains, add_key, lookup, insert, string_eq}
use px.Llm.Request.{Request}

pub record VerificationCandidate : Type 0 where
  pub id : String
  pub path : String
  pub start_line : ℤ
  pub end_line : ℤ
  pub title : String
  pub evidence : String
  pub context : String

pub record VerificationDecision : Type 0 where
  pub id : String
  pub supported : Bool
  pub confidence : Float
  pub reason : String

pub record VerificationResult : Type 0 where
  pub kept : List VerificationCandidate
  pub dropped : List (String × String)
  pub decisions : List VerificationDecision

-- The settings of a verifier; `has_client` is `Client != nil`.
pub record FindingVerifier : Type 0 where
  pub has_client : Bool
  pub provider : String
  pub model : String
  pub prompt_version : String
  pub min_confidence : Float
  pub max_output_tokens : ℤ

-- What the verifier calls: JSON and quoting of the standard library, and the model.
pub record Services : Type 0 where
  pub marshal : List VerificationCandidate → String
  pub quote : String → String
  pub complete : Request → Result String
  pub decode_json : String → Result (List VerificationDecision)

unfoldable pub lacks_evidence : VerificationCandidate → Bool
lacks_evidence c =
    leb_ℤ c.start_line (pos 0) || ltb_ℤ c.end_line c.start_line || is_blank c.evidence

-- The first loop: what is dropped and what is eligible, and the error that ends the loop.
unfoldable pub screen :
    List String
    → List (String × String)
    → List VerificationCandidate
    → List VerificationCandidate
    → Option String × List (String × String) × List VerificationCandidate
screen seen dropped eligible [] = (none, dropped, eligible)
screen seen dropped eligible (c ∷ cs) =
    let rest =
      screen (add_key c.id seen)
        (if lacks_evidence c then insert c.id "missing line evidence" dropped else dropped)
        (if lacks_evidence c then eligible else eligible ++ c ∷ []) cs in
    if str_eq c.id "" || contains c.id seen
    then (some "verification candidates require unique IDs", dropped, eligible)
    else rest

abbrev invalid_decision : VerificationDecision → Bool
invalid_decision d =
    str_eq d.id "" || ltb_f d.confidence zero_f || ltb_f one_f d.confidence || is_blank d.reason

unfoldable pub check_decisions : List VerificationDecision → Result (Unit {0})
check_decisions [] = ok tt
check_decisions (d ∷ ds) =
    refuse_if (invalid_decision d) "verifier decision is invalid" >> check_decisions ds

-- `decodeDecisions`, behind the JSON decoder.
unfoldable pub decode_decisions :
    Result (List VerificationDecision) → Result (List VerificationDecision)
decode_decisions decoded = do ds ← decoded; check_decisions ds; ok ds

abbrev pub Decisions : Type 0
Decisions = List (String × VerificationDecision)

-- `byID[id].ID != ""`
unfoldable pub has_decision : String → Decisions → Bool
has_decision id by_id = elim (lookup id by_id) [ none ↦ false | some d ↦ not (str_eq d.id "") ]

-- The loop that fills `byID`.
unfoldable pub index_decisions :
    (String → String) → List String → Decisions → List VerificationDecision → Result Decisions
index_decisions quote eligible_ids by_id [] = ok by_id
index_decisions quote eligible_ids by_id (d ∷ ds) =
    refuse_if (not (contains d.id eligible_ids) || has_decision d.id by_id)
      (concat "unexpected or duplicate verification ID " (quote d.id))
    >> index_decisions quote eligible_ids (insert d.id d by_id) ds

abbrev pub accepted : Float → VerificationDecision → Bool
accepted threshold d = d.supported && not (ltb_f d.confidence threshold)

-- One candidate under its decision.
unfoldable pub settle :
    Float → VerificationCandidate → VerificationDecision → VerificationResult → VerificationResult
settle threshold c d r =
    if not d.supported || ltb_f d.confidence threshold
    then record r { dropped = insert c.id d.reason r.dropped }
    else record r { kept = r.kept ++ c ∷ [] }

-- The last loop, with the error that ends it beside the result so far.
unfoldable pub settle_all :
    (String → String)
    → Float
    → Decisions
    → VerificationResult
    → List VerificationCandidate
    → VerificationResult × Option String
settle_all quote threshold by_id r [] = (r, none)
settle_all quote threshold by_id r (c ∷ cs) = elim (lookup c.id by_id) [
  | none ↦ (r, some (concat "verifier omitted candidate " (quote c.id)))
  | some d ↦ settle_all quote threshold by_id (settle threshold c d r) cs
]

unfoldable pub threshold_of : FindingVerifier → Float
threshold_of v = if leb_ℤ v.min_confidence zero_f then three_fifths_f else v.min_confidence

unfoldable pub request_of : Services → FindingVerifier → List VerificationCandidate → Request
request_of s v eligible = record {
  provider = v.provider;
  model = v.model;
  system =
      "Verify each proposed code-review finding only against its supplied line evidence and context. Return strict JSON decisions and do not add findings.";
  prompt =
      concat "Prompt version: "
        (concat v.prompt_version (concat "\nCandidates:\n" (s.marshal eligible)));
  max_output_tokens = if leb_ℤ v.max_output_tokens (pos 0) then pos 2000 else v.max_output_tokens;
  temperature = zero_f;
}

-- From the model's answer on.
unfoldable pub conclude :
    Services
    → FindingVerifier
    → List VerificationCandidate
    → VerificationResult
    → List VerificationDecision
    → VerificationResult × Option String
conclude s v eligible r ds =
    let with_decisions : VerificationResult = record r { decisions = ds } in
    elim (index_decisions s.quote (map (λ c. c.id) eligible) [] ds) [
      | err e ↦ (with_decisions, some e)
      | ok by_id ↦ settle_all s.quote (threshold_of v) by_id with_decisions eligible
    ]

unfoldable pub ask :
    Services
    → FindingVerifier
    → List VerificationCandidate
    → VerificationResult
    → VerificationResult × Option String
ask s v eligible r = elim (s.complete (request_of s v eligible)) [
  | err e ↦ (r, some (concat "verify findings: " e))
  | ok text ↦ elim (decode_decisions (s.decode_json text)) [
    | err e ↦ (r, some e)
    | ok ds ↦ conclude s v eligible r ds
  ]
]

abbrev unconfigured : FindingVerifier → Bool
unconfigured v =
    not v.has_client || str_eq v.provider "" || str_eq v.model "" || str_eq v.prompt_version ""

unfoldable pub after_screen :
    Services
    → FindingVerifier
    → Option String × List (String × String) × List VerificationCandidate
    → VerificationResult × Option String
after_screen s v (some e, dropped, eligible) =
    (record { kept = []; dropped = dropped; decisions = [] }, some e)
after_screen s v (none, dropped, []) =
    (record { kept = []; dropped = dropped; decisions = [] }, none)
after_screen s v (none, dropped, c ∷ cs) =
    let r : VerificationResult = record { kept = []; dropped = dropped; decisions = [] } in
    if unconfigured v
    then (r, some "verifier client, provider, model, and prompt version are required")
    else ask s v (c ∷ cs) r

-- `FindingVerifier.Verify`: the result, which is returned beside an error too.
unfoldable pub verify :
    Services → FindingVerifier → List VerificationCandidate → VerificationResult × Option String
verify s v candidates = after_screen s v (screen [] [] [] candidates)
