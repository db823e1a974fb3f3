-- ===== src/Learning/Proposals/Lifecycle.antt =====
-- The states of a proposal under Accept, over any store and publisher that keep their contracts.
use px.Prelude.{
  ◌≡◌, refl, ap, ◌∙◌, ◌⊎◌, inl, inr, String, Bool, true, false, none, some, List, arith, str_eq,
  eq_iff, Result, ok, err, Result-cases, Bool-cases,
}
use px.Prelude.Int.{ℤ}
use px.Learning.Links.{ParseUrl, github_pull_request_url}
use px.Learning.Proposals.{
  proposal_pending, proposal_publishing, proposal_accepted, QueuedRuleProposal, ProposalQueueStore,
  ProposalPullRequestPublisher, ProposalQueue, load_proposal, finish, publish_proposal, claimed,
  accept_loaded, accept,
}

-- The contract of a store on one proposal, whose state in the store is `state_of`: it loads that state,
-- claims a pending proposal for publication, completes it, and may put it back.
pub record IsQueueStore {ℓ} {S : Type ℓ} (store : ProposalQueueStore S)
    (installation_id repository_id : ℤ) (proposal_id : String) (state_of : S → String)
    : Type ℓ where
  pub loads :
      (s : S) (proposal : QueuedRuleProposal)
      → store.load_proposal installation_id repository_id proposal_id s ≡ ok proposal
      → proposal.state ≡ state_of s
  pub claims :
      (s after : S)
      → store.claim_pending_proposal installation_id repository_id proposal_id s ≡ (after, ok true)
      → state_of after ≡ proposal_publishing
  pub claims_none :
      (s after : S) (r : Result Bool)
      → store.claim_pending_proposal installation_id repository_id proposal_id s ≡ (after, r)
      → (state_of after ≡ state_of s) ⊎ (r ≡ ok true)
  pub completes :
      (s : S) (url : String)
      → ((store.complete_proposal installation_id repository_id proposal_id url s).1 ≡ none)
          × (state_of (store.complete_proposal installation_id repository_id proposal_id url s).0
              ≡ proposal_accepted)
        ⊎ ((e : String) × ((store.complete_proposal installation_id repository_id proposal_id url
                s).1
              ≡ some e)
            × (state_of (store.complete_proposal installation_id repository_id proposal_id url s).0
                ≡ state_of s))
  pub releases :
      (s : S)
      → (state_of (store.release_proposal installation_id repository_id proposal_id s).0
          ≡ state_of s)
        ⊎ (state_of (store.release_proposal installation_id repository_id proposal_id s).0
            ≡ proposal_pending)

-- A proposal that a maintainer has still to accept.
abbrev pub Awaits : String → Type 0
Awaits state = (state ≡ proposal_pending) ⊎ (state ≡ proposal_publishing)

-- What Accept does: the pull request is open and the proposal accepted, or there is an error, and the
-- proposal is where it was or still awaits.
abbrev pub IsAcceptance {ℓ} :
    {S : Type ℓ} → ParseUrl → (S → String) → S → S × Result String → Type 0
IsAcceptance parse state_of s out =
    ((url : String) × (out.1 ≡ ok url)
      × Awaits (state_of s)
      × (state_of out.0 ≡ proposal_accepted)
      × (github_pull_request_url parse url ≡ true))
    ⊎ ((e : String) × (out.1 ≡ err e)
        × ((state_of out.0 ≡ state_of s) ⊎ (Awaits (state_of s) × Awaits (state_of out.0))))

module _ {ℓ} {S : Type ℓ} (parse : ParseUrl) (store : ProposalQueueStore S)
    (publish : ProposalPullRequestPublisher S) (installation_id repository_id : ℤ)
    (proposal_id : String) (state_of : S → String)
    (laws : IsQueueStore store installation_id repository_id proposal_id state_of)
    (apart : (id text : String) (links : List String) (s : S)
      → state_of (publish installation_id repository_id id text links s).0 ≡ state_of s) where
  released-Awaits :
      (s : S)
      → state_of s ≡ proposal_publishing
      → Awaits (state_of (store.release_proposal installation_id repository_id proposal_id s).0)
  released-Awaits s p = elim (laws.releases s) [ inl e ↦ inr (e ∙ p) | inr e ↦ inl e ]

  finish-IsAcceptance :
      (before s : S) (r : Result String)
      → Awaits (state_of before)
      → state_of s ≡ proposal_publishing
      → IsAcceptance parse state_of before
          (finish parse store publish installation_id repository_id proposal_id (s, r))
  unfolding finish
  finish-IsAcceptance before s (err e) a p = inr (e, refl, inr (a, released-Awaits s p))
  finish-IsAcceptance before s (ok url) a p =
      elim (Bool-cases (github_pull_request_url parse url)) [
        | inl u ↦ elim (laws.completes s url) [
          | inl (none_left, done) ↦ rw (u, none_left) (inl (url, refl, a, done, u))
          | inr (e, failed, same) ↦ rw (u, failed) (inr (e, refl, inr (a, inr (same ∙ p))))
        ]
        | inr u ↦ rw u (
            inr (
              "publisher returned an invalid pull request URL",
              refl,
              inr (a, released-Awaits s p),
            ))
      ]

  publish_proposal-IsAcceptance :
      (before s : S) (proposal : QueuedRuleProposal)
      → Awaits (state_of before)
      → state_of s ≡ proposal_publishing
      → IsAcceptance parse state_of before (
          publish_proposal parse store publish installation_id repository_id proposal_id proposal s)
  publish_proposal-IsAcceptance before s proposal a p =
      let out =
        publish installation_id repository_id proposal.id proposal.rule_text proposal.evidence_links
          s in
      finish-IsAcceptance before out.0 out.1 a
        (apart proposal.id proposal.rule_text proposal.evidence_links s ∙ p)

  claimed-IsAcceptance :
      (before s : S) (proposal : QueuedRuleProposal) (r : Result Bool)
      → Awaits (state_of before)
      → (r ≡ ok true → state_of s ≡ proposal_publishing)
      → (state_of s ≡ state_of before) ⊎ (r ≡ ok true)
      → IsAcceptance parse state_of before
          (claimed parse store publish installation_id repository_id proposal_id proposal (s, r))
  unfolding claimed
  claimed-IsAcceptance before s proposal (err e) a p same = inr (e, refl, inl (ground arith))
  claimed-IsAcceptance before s proposal (ok false) a p same =
      inr ("proposal is no longer pending", refl, inl (ground arith))
  claimed-IsAcceptance before s proposal (ok true) a p same =
      publish_proposal-IsAcceptance before s proposal a (p refl)

  accept_loaded-IsAcceptance :
      (s : S) (r : Result QueuedRuleProposal)
      → ((proposal : QueuedRuleProposal) → r ≡ ok proposal → proposal.state ≡ state_of s)
      → IsAcceptance parse state_of s
          (accept_loaded parse store publish installation_id repository_id proposal_id s r)
  unfolding accept_loaded
  accept_loaded-IsAcceptance s (err e) loads = inr (e, refl, inl refl)
  accept_loaded-IsAcceptance s (ok proposal) loads =
      elim (Bool-cases (str_eq proposal.state proposal_pending)) [
        | inl e ↦ rw e (
            let out = store.claim_pending_proposal installation_id repository_id proposal_id s in
            claimed-IsAcceptance s out.0 proposal out.1
              (inl (ground (arith, loads proposal, eq_iff proposal.state proposal_pending)))
              (λ h. laws.claims s out.0 (ap (λ r. (out.0, r)) h))
              (laws.claims_none s out.0 out.1 refl))
        | inr e ↦ elim (Bool-cases (str_eq proposal.state proposal_publishing)) [
          | inl f ↦
              rw (e, f)
                (publish_proposal-IsAcceptance s s proposal
                  (inr (ground (arith, loads proposal, eq_iff proposal.state proposal_publishing)))
                  (ground (arith, loads proposal, eq_iff proposal.state proposal_publishing)))
          | inr f ↦
              rw (e, f) (inr ("proposal cannot be accepted from its current state", refl, inl refl))
        ]
      ]

  load_proposal-state :
      (s : S) (proposal : QueuedRuleProposal)
      → load_proposal parse (some store) installation_id repository_id proposal_id s ≡ ok proposal
      → proposal.state ≡ state_of s
  unfolding load_proposal
  load_proposal-state s proposal h =
      elim (Result-cases (store.load_proposal installation_id repository_id proposal_id s)) [
        | inl (q, e) ↦ ground (arith, laws.loads s q e)
        | inr (x, e) ↦ ground arith
      ]

  -- Over a store that keeps its contract and a publisher that leaves it alone, Accept answers a URL only
  -- for a proposal that awaited acceptance, which is then accepted, and only the URL of a GitHub pull
  -- request; where it fails, the proposal is in the state it was in, or awaits acceptance as before. So
  -- a rejected or an accepted proposal stays as it is.
  pub accept-IsAcceptance :
      (q : ProposalQueue S) (s : S)
      → q.store ≡ some store
      → q.publisher ≡ some publish
      → IsAcceptance parse state_of s (accept parse q installation_id repository_id proposal_id s)
  unfolding accept
  accept-IsAcceptance q s given published =
      rw (given, published)
        (accept_loaded-IsAcceptance s
          (load_proposal parse (some store) installation_id repository_id proposal_id s)
          (load_proposal-state s))
