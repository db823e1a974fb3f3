-- ===== src/Learning/Suppression.antt =====
-- internal/hosted/learning/suppression.go: when feedback silences a kind of finding.
pub mod Evidence
mod Tests
use px.Prelude.{
  ℕ, ◌*◌, ◌^◌, String, Bool, true, false, not, ◌&&◌, ◌||◌, List, [], ◌∷◌, str_eq, if◌then◌else◌,
  Result, ok, err, ◌>>=◌, ◌>>◌, refuse_if, length, any_of,
}
use px.Prelude.Int.{ℤ, pos, ltb_ℤ, leb_ℤ, eqb_ℤ, ◌-ℤ◌}
use px.Prelude.Sort.{sort_by}
use px.Prelude.Maps.{contains, int_eq}

-- Instants are nanoseconds after the zero time, durations are nanoseconds.
abbrev pub default_suppression_threshold : ℤ
default_suppression_threshold = pos 3

abbrev hours : ℕ → ℤ
hours n = pos (n * 3600 * 10 ^ 9)

abbrev pub default_suppression_window : ℤ
default_suppression_window = hours (30 * 24)

pub record SuppressionFinding : Type 0 where
  pub severity : String
  pub category : String
  pub path : String

pub record NoiseEvent : Type 0 where
  pub id : ℤ
  pub category : String
  pub path : String
  pub kind : String
  pub occurred_at : ℤ

pub record SuppressionConfig : Type 0 where
  pub threshold : ℤ
  pub window : ℤ
  pub path_glob : String

pub record SuppressionDecision : Type 0 where
  pub suppress : Bool
  pub reason : String
  pub evidence_ids : List ℤ

-- `path.Match(pattern, name)`, which may refuse the pattern.
abbrev pub Match : Type 0
Match = String → String → Result Bool

unfoldable pub invalid_finding : SuppressionFinding → ℤ → Bool
invalid_finding finding now =
    str_eq finding.path ""
    || not (
        str_eq finding.severity "P0"
        || str_eq finding.severity "P1"
        || str_eq finding.severity "P2")
    || str_eq finding.category ""
    || eqb_ℤ now (pos 0)

abbrev pub is_protected : SuppressionFinding → Bool
is_protected finding =
    str_eq finding.severity "P0"
    || str_eq finding.category "security"
    || str_eq finding.category "logic"

abbrev pub suppression_threshold : SuppressionConfig → ℤ
suppression_threshold config =
    if eqb_ℤ config.threshold (pos 0) then default_suppression_threshold else config.threshold

abbrev pub window_of : SuppressionConfig → ℤ
window_of config = if eqb_ℤ config.window (pos 0) then default_suppression_window else config.window

abbrev pub glob_of : SuppressionConfig → String
glob_of config = if str_eq config.path_glob "" then "**" else config.path_glob

-- The event lies in the scope of the glob; an error of the match reads false.
abbrev in_scope : Match → String → String → Bool
in_scope match glob path =
    str_eq glob "**" || elim (match glob path) [ ok matched ↦ matched | err e ↦ false ]

-- The event passes every guard of the loop but the one on repeated IDs.
unfoldable pub qualifies : Match → String → SuppressionFinding → ℤ → ℤ → NoiseEvent → Bool
qualifies match glob finding cutoff now event =
    not (
      leb_ℤ event.id (pos 0)
      || not (str_eq event.category finding.category)
      || ltb_ℤ event.occurred_at cutoff
      || ltb_ℤ now event.occurred_at
      || (not (str_eq event.kind "ignored") && not (str_eq event.kind "thumbs_down")))
    && in_scope match glob event.path

-- The loop over the events: the IDs it appends, given those seen.
unfoldable pub collect : (NoiseEvent → Bool) → List ℤ → List NoiseEvent → List ℤ
collect counts seen [] = []
collect counts seen (event ∷ events) =
    let rest = collect counts (event.id ∷ seen) events in
    let same_rest = collect counts seen events in
    if counts event && not (contains event.id seen) then event.id ∷ rest else same_rest

abbrev pub evidence_of :
    Match → SuppressionFinding → List NoiseEvent → SuppressionConfig → ℤ → List ℤ
evidence_of match finding events config now =
    sort_by ltb_ℤ
      (collect (qualifies match (glob_of config) finding (now -ℤ window_of config) now) [] events)

unfoldable pub weigh : ℤ → List ℤ → SuppressionDecision
weigh threshold ids =
    if leb_ℤ threshold (pos (length ids))
    then (record {
      suppress = true;
      reason = "eligible category repeatedly ignored or downvoted in scope";
      evidence_ids = ids;
    })
    else (record {
      suppress = false;
      reason = "feedback threshold not reached";
      evidence_ids = ids;
    })

abbrev pub stay_visible : String → SuppressionDecision
stay_visible reason = record { suppress = false; reason = reason; evidence_ids = [] }

-- The decision once the glob was matched with the path of the finding.
unfoldable pub decide_in_scope :
    Match
    → SuppressionFinding
    → List NoiseEvent
    → SuppressionConfig
    → ℤ
    → Result Bool
    → Result SuppressionDecision
decide_in_scope match finding events config now (err e) = err "suppression path glob is invalid"
decide_in_scope match finding events config now (ok matched) =
    if not matched && not (str_eq (glob_of config) "**")
    then ok (stay_visible "finding is outside the configured path scope")
    else ok (weigh (suppression_threshold config) (evidence_of match finding events config now))

-- `DecideSuppression`
unfoldable pub decide_suppression :
    Match
    → SuppressionFinding
    → List NoiseEvent
    → SuppressionConfig
    → ℤ
    → Result SuppressionDecision
decide_suppression match finding events config now =
    if invalid_finding finding now
    then err "finding path, severity, category, and current time are required"
    else (if is_protected finding
        then ok (stay_visible "protected finding categories are never auto-suppressed")
        else (if ltb_ℤ (suppression_threshold config) default_suppression_threshold
            then err "suppression threshold cannot be lower than three"
            else (if leb_ℤ (window_of config) (pos 0) || ltb_ℤ (hours (365 * 24)) (window_of config)
                then err "suppression window is invalid"
                else decide_in_scope match finding events config now
                    (match (glob_of config) finding.path))))
