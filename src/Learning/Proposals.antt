-- ===== src/Learning/Proposals.antt =====
-- internal/hosted/learning/proposal_queue.go: the queue of rule proposals and what a maintainer does to one.
pub mod Lifecycle
mod Tests
use px.Prelude.{
  String, len, Bool, true, false, not, ◌&&◌, ◌||◌, Option, none, some, List, [], ◌∷◌, str_eq, ltb,
  if◌then◌else◌, Result, ok, err, ◌>>=◌, ◌>>◌, refuse_if, any_of, length, ◌==◌,
}
use px.Prelude.Int.{ℤ, pos, leb_ℤ, eqb_ℤ}
use px.Prelude.Text.{trim_space, is_blank}
use px.Learning.Links.{ParseUrl, github_evidence_url, github_pull_request_url}

abbrev pub proposal_pending : String
proposal_pending = "pending"

abbrev pub proposal_publishing : String
proposal_publishing = "publishing"

abbrev pub proposal_accepted : String
proposal_accepted = "accepted"

abbrev pub proposal_rejected : String
proposal_rejected = "rejected"

pub record QueuedRuleProposal : Type 0 where
  pub id : String
  pub installation_id : ℤ
  pub repository_id : ℤ
  pub rule_text : String
  pub evidence_links : List String
  pub state : String
  pub pull_request_url : String

-- A step of the store: its new state, and the error if there is one.
abbrev pub Step {ℓ} : Type ℓ → Type ℓ
Step S = S → S × Option String

-- The interface of the store, over its states. Each operation takes the tenant, the repository and the
-- proposal.
pub record ProposalQueueStore {ℓ} (S : Type ℓ) : Type ℓ where
  pub load_proposal : ℤ → ℤ → String → S → Result QueuedRuleProposal
  pub update_pending_proposal : ℤ → ℤ → String → String → Step S
  pub reject_pending_proposal : ℤ → ℤ → String → Step S
  pub claim_pending_proposal : ℤ → ℤ → String → S → S × Result Bool
  pub complete_proposal : ℤ → ℤ → String → String → Step S
  pub release_proposal : ℤ → ℤ → String → Step S

-- `OpenProposal` opens the pull request of a proposal and answers its URL.
abbrev pub ProposalPullRequestPublisher {ℓ} : Type ℓ → Type ℓ
ProposalPullRequestPublisher S = ℤ → ℤ → String → String → List String → S → S × Result String

pub record ProposalQueue {ℓ} (S : Type ℓ) : Type ℓ where
  pub store : Option (ProposalQueueStore S)
  pub publisher : Option (ProposalPullRequestPublisher S)

-- The proposal is not the one asked for, or holds no rule or no evidence.
unfoldable pub invalid_proposal : ℤ → ℤ → String → QueuedRuleProposal → Bool
invalid_proposal installation_id repository_id proposal_id proposal =
    not (str_eq proposal.id proposal_id)
    || not (eqb_ℤ proposal.installation_id installation_id)
    || not (eqb_ℤ proposal.repository_id repository_id)
    || is_blank proposal.rule_text
    || length proposal.evidence_links == 0

-- `loadProposal`
unfoldable pub load_proposal {ℓ} :
    {S : Type ℓ}
    → ParseUrl
    → Option (ProposalQueueStore S)
    → ℤ
    → ℤ
    → String
    → S
    → Result QueuedRuleProposal
load_proposal parse none installation_id repository_id proposal_id s =
    err "proposal store, tenant, and id are required"
load_proposal parse (some store) installation_id repository_id proposal_id s =
    refuse_if (leb_ℤ installation_id (pos 0) || leb_ℤ repository_id (pos 0) || is_blank proposal_id)
      "proposal store, tenant, and id are required"
    >> (store.load_proposal installation_id repository_id proposal_id s >>= λ proposal.
        refuse_if (invalid_proposal installation_id repository_id proposal_id proposal)
          "proposal is invalid"
        >> refuse_if (any_of (λ e. not (github_evidence_url parse e)) proposal.evidence_links)
            "proposal evidence must be an HTTPS GitHub URL"
        >> ok proposal)

-- `loadValidated`
unfoldable pub load_validated {ℓ} :
    {S : Type ℓ}
    → ParseUrl
    → Option (ProposalQueueStore S)
    → ℤ
    → ℤ
    → String
    → S
    → Result QueuedRuleProposal
load_validated parse store installation_id repository_id proposal_id s =
    load_proposal parse store installation_id repository_id proposal_id s >>= λ proposal.
    refuse_if (not (str_eq proposal.state proposal_pending)) "proposal is not pending"
    >> ok proposal

-- A step on the store, if it is there and the proposal is pending.
abbrev on_pending {ℓ} :
    {S : Type ℓ} {A : Type 0}
    → Option (ProposalQueueStore S)
    → Result A
    → (ProposalQueueStore S → Step S)
    → Step S
on_pending store (err e) step s = (s, some e)
on_pending none (ok loaded) step s = (s, some "proposal store, tenant, and id are required")
on_pending (some store) (ok loaded) step s = step store s

unfoldable pub edit {ℓ} :
    {S : Type ℓ} → ParseUrl → ProposalQueue S → ℤ → ℤ → String → String → Step S
edit parse q installation_id repository_id proposal_id rule_text s =
    on_pending q.store (load_validated parse q.store installation_id repository_id proposal_id s)
      (λ store after.
        if str_eq (trim_space rule_text) "" || ltb 8000 (len (trim_space rule_text))
        then (after, some "rule text must contain 1 to 8000 bytes")
        else store.update_pending_proposal installation_id repository_id proposal_id
            (trim_space rule_text) after)
      s

unfoldable pub reject {ℓ} : {S : Type ℓ} → ParseUrl → ProposalQueue S → ℤ → ℤ → String → Step S
reject parse q installation_id repository_id proposal_id s =
    on_pending q.store (load_validated parse q.store installation_id repository_id proposal_id s)
      (λ store. store.reject_pending_proposal installation_id repository_id proposal_id) s

module _ {ℓ} {S : Type ℓ} (parse : ParseUrl) (store : ProposalQueueStore S)
    (publish : ProposalPullRequestPublisher S) (installation_id repository_id : ℤ)
    (proposal_id : String) where
  -- The URL that the publisher answered is checked and kept, or the proposal is released.
  unfoldable pub finish : S × Result String → S × Result String
  finish (s, err e) =
      ((store.release_proposal installation_id repository_id proposal_id s).0, err e)
  finish (s, ok url) =
      if github_pull_request_url parse url
      then elim (store.complete_proposal installation_id repository_id proposal_id url s).1 [
        | none ↦
            ((store.complete_proposal installation_id repository_id proposal_id url s).0, ok url)
        | some e ↦
            ((store.complete_proposal installation_id repository_id proposal_id url s).0, err e)
      ]
      else (
        (store.release_proposal installation_id repository_id proposal_id s).0,
        err "publisher returned an invalid pull request URL",
      )

  abbrev pub publish_proposal : QueuedRuleProposal → S → S × Result String
  publish_proposal proposal s = finish (
      publish installation_id repository_id proposal.id proposal.rule_text proposal.evidence_links
        s)

  -- What a claim answered.
  unfoldable pub claimed : QueuedRuleProposal → S × Result Bool → S × Result String
  claimed proposal (s, err e) = (s, err e)
  claimed proposal (s, ok false) = (s, err "proposal is no longer pending")
  claimed proposal (s, ok true) = publish_proposal proposal s

  -- A pending proposal is claimed first, one that is publishing is published again.
  unfoldable pub accept_loaded : S → Result QueuedRuleProposal → S × Result String
  accept_loaded s (err e) = (s, err e)
  accept_loaded s (ok proposal) =
      if str_eq proposal.state proposal_pending
      then claimed proposal
          (store.claim_pending_proposal installation_id repository_id proposal_id s)
      else (if str_eq proposal.state proposal_publishing
          then publish_proposal proposal s
          else (s, err "proposal cannot be accepted from its current state"))

-- `Accept`
unfoldable pub accept {ℓ} :
    {S : Type ℓ} → ParseUrl → ProposalQueue S → ℤ → ℤ → String → S → S × Result String
accept parse q installation_id repository_id proposal_id s = elim q.publisher [
  | none ↦ (s, err "proposal publisher is required")
  | some publish ↦ elim q.store [
    | none ↦ (s, err "proposal store, tenant, and id are required")
    | some store ↦
        accept_loaded parse store publish installation_id repository_id proposal_id s
          (load_proposal parse (some store) installation_id repository_id proposal_id s)
  ]
]
