-- ===== src/Learning/Proposals/Tests.antt =====
-- A store of one proposal whose state is all that changes.
use px.Prelude.{
  ◌≡◌, refl, inl, String, true, false, none, some, [], ◌∷◌, arith, str_eq, if◌then◌else◌, ok, err,
  any_of,
}
use px.Prelude.Int.{pos}
use px.Prelude.Text.{trim_left, trim_right, trim_space, split_on, map_chars, ascii_lower}
use px.Prelude.Numbers.{parse_int, digits_value}
use px.Learning.Links.{ParseUrl, github_evidence_url, github_pull_request_url, pull_request_path}
use px.Learning.Proposals.{
  QueuedRuleProposal, ProposalQueueStore, ProposalPullRequestPublisher, ProposalQueue,
  invalid_proposal, load_proposal, load_validated, finish, claimed, accept_loaded, accept, reject,
}
use px.Learning.Proposals.Lifecycle.{IsQueueStore, IsAcceptance, accept-IsAcceptance}

abbrev stored : String → QueuedRuleProposal
stored state = record {
  id = "p";
  installation_id = pos 1;
  repository_id = pos 2;
  rule_text = "name tests";
  evidence_links = "e" ∷ [];
  state = state;
  pull_request_url = "";
}

abbrev parse : ParseUrl
parse raw = some (record { scheme = "https"; host = "github.com"; path = raw })

-- The state of the store is the state of the proposal.
abbrev one_proposal : ProposalQueueStore String
one_proposal = record {
  load_proposal = λ i r p state. ok (stored state);
  update_pending_proposal = λ i r p text state. (state, none);
  reject_pending_proposal = λ i r p state. ("rejected", none);
  claim_pending_proposal = λ i r p state.
      (if str_eq state "pending" then ("publishing", ok true) else (state, ok false));
  complete_proposal = λ i r p url state. ("accepted", none);
  release_proposal = λ i r p state. (if str_eq state "publishing" then "pending" else state, none);
}

abbrev open_at : String → ProposalPullRequestPublisher String
open_at url i r id text links state = (state, ok url)

abbrev queue : String → ProposalQueue String
queue url = record { store = some one_proposal; publisher = some (open_at url) }

accept-pending :
    accept parse (queue "/a/b/pull/1") (pos 1) (pos 2) "p" "pending"
    ≡ ("accepted", ok "/a/b/pull/1")
unfolding accept accept_loaded load_proposal invalid_proposal claimed finish github_evidence_url
    github_pull_request_url pull_request_path any_of trim_left trim_right trim_space split_on
    map_chars ascii_lower parse_int digits_value
accept-pending = refl

accept-elsewhere :
    accept parse (queue "/a/b") (pos 1) (pos 2) "p" "pending"
    ≡ ("pending", err "publisher returned an invalid pull request URL")
unfolding accept accept_loaded load_proposal invalid_proposal claimed finish github_evidence_url
    github_pull_request_url pull_request_path any_of trim_left trim_right trim_space split_on
    map_chars ascii_lower parse_int digits_value
accept-elsewhere = refl

reject-accepted :
    reject parse (queue "u") (pos 1) (pos 2) "p" "accepted"
    ≡ ("accepted", some "proposal is not pending")
unfolding reject load_validated load_proposal invalid_proposal github_evidence_url any_of trim_left
    trim_right trim_space map_chars ascii_lower
reject-accepted = refl

one_proposal-IsQueueStore : IsQueueStore one_proposal (pos 1) (pos 2) "p" (λ state. state)
one_proposal-IsQueueStore = record {
  loads = λ s proposal h. ground arith;
  claims = λ s after h. ground arith;
  claims_none = λ s after r h. ground arith;
  completes = λ s url. inl (refl, refl);
  releases = λ s. ground arith;
}

accept-IsAcceptance_example :
    IsAcceptance parse
      (λ state. state)
      "pending"
      (accept parse (queue "/a/b/pull/1") (pos 1) (pos 2) "p" "pending")
accept-IsAcceptance_example =
    accept-IsAcceptance parse one_proposal (open_at "/a/b/pull/1") (pos 1) (pos 2) "p"
      (λ state. state) one_proposal-IsQueueStore (λ id text links s. refl) (queue "/a/b/pull/1")
      "pending" refl refl
