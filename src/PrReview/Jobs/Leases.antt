-- ===== src/PrReview/Jobs/Leases.antt =====
-- What the lease decisions promise (services/prreview/store/store.go), over any interleaving of workers.
use modulex.Prelude.{ℕ, ◌<◌, String, ◌≡◌, ◌≢◌, ◌↔◌, ◌⊎◌, true, false, arith, test_self}
use text.Mathlib.TextEquality.{eq_iff}
use modulex.PrReview.Jobs.{
  JobStatus, Job, AcquireAction, acquire_decision, complete_decision, JobOp,
}

abbrev pub token_of : JobOp → String
token_of (JobOp.acquire now head ttl owner) = owner
token_of (JobOp.reanchor head owner) = owner
token_of (JobOp.keep_comment comment owner) = owner
token_of (JobOp.complete sha tokens owner) = owner
token_of (JobOp.release owner) = owner

abbrev pub IsBefore : ℕ → JobOp → Type 0
IsBefore expiry (JobOp.acquire now head ttl owner) = now < expiry
IsBefore expiry _ = Unit

-- An operation of another worker, before the lease expires.
pub record IsForeign (owner : String) (expiry : ℕ) (op : JobOp) : Type 0 where
  pub other : token_of op ≢ owner
  pub early : IsBefore expiry op

-- The worker's lease, the reviewed head, the counters and a recorded comment, as in the job `j`.
pub record HoldsLease (owner : String) (j j' : Job) : Type 0 where
  pub status : j'.status ≡ JobStatus.running
  pub held : j'.lease_owner ≡ owner
  pub expiry : j'.lease_expiry ≡ j.lease_expiry
  pub reviewed : j'.last_reviewed_sha ≡ j.last_reviewed_sha
  pub count : j'.review_count ≡ j.review_count
  pub spent : j'.tokens_used ≡ j.tokens_used
  pub comment : (j.comment_id ≡ 0) ⊎ (j'.comment_id ≡ j.comment_id)

-- CompleteDecision lets the worker post exactly when it still holds the lease and its review is of the
-- target, and asks for a follow-up exactly when it holds the lease and the target has moved; a worker
-- that lost its lease changes nothing.
pub complete_decision_iff :
    (j : Job) (reviewed : String) (tokens : ℕ) (owner : String)
    → (((complete_decision j reviewed tokens owner).1.post ≡ true)
        ↔ ((j.lease_owner ≡ owner) × (j.target_sha ≡ reviewed)))
      × (((complete_decision j reviewed tokens owner).1.follow_up ≡ true)
          ↔ ((j.lease_owner ≡ owner) × (j.target_sha ≢ reviewed)))
unfolding complete_decision
complete_decision_iff j reviewed tokens owner =
    let q1 = eq_iff j.lease_owner owner in
    let q2 = eq_iff j.target_sha reviewed in
    (
      ((λ e. ground (arith, q1, q2)), λ e. ground (arith, q1, q2)),
      ((λ e. (ground (arith, q1, q2), λ t. ground (arith, q1, q2))), λ e. ground (arith, q1, q2)),
    )

-- A push is not lost. A delivery with a new head that finds the job under review is skipped, but when
-- the worker that holds the lease completes its review of another commit, it is told to follow up with
-- exactly that head, and whoever takes the job up next runs for that head, be it on a delivery of the
-- head or of the one reviewed last.
pub push-follow_up :
    (j : Job) (now later ttl : ℕ) (head reviewed owner other next : String) (tokens : ℕ)
    → j.status ≡ JobStatus.running
    → now < j.lease_expiry
    → j.lease_owner ≡ owner
    → head ≢ j.last_reviewed_sha
    → head ≢ reviewed
    → head ≢ ""
    → ((acquire_decision j now head ttl other).1 ≡ AcquireAction.skip)
      × ((complete_decision (acquire_decision j now head ttl other).0 reviewed tokens owner).1
          ≡ record { post = false; follow_up = true; follow_up_sha = head })
      × ((acquire_decision
            (complete_decision (acquire_decision j now head ttl other).0 reviewed tokens owner).0
            later
            head
            ttl
            next).1
          ≡ AcquireAction.run)
      × ((acquire_decision
            (complete_decision (acquire_decision j now head ttl other).0 reviewed tokens owner).0
            later
            head
            ttl
            next).0.target_sha
          ≡ head)
      × ((acquire_decision
            (complete_decision (acquire_decision j now head ttl other).0 reviewed tokens owner).0
            later
            j.last_reviewed_sha
            ttl
            next).1
          ≡ AcquireAction.run)
      × ((acquire_decision
            (complete_decision (acquire_decision j now head ttl other).0 reviewed tokens owner).0
            later
            j.last_reviewed_sha
            ttl
            next).0.target_sha
          ≡ head)
unfolding acquire_decision complete_decision
push-follow_up j now later ttl head reviewed owner other next tokens running early held new moved
      some_head =
    let q1 = eq_iff head j.last_reviewed_sha in
    let q2 = eq_iff head reviewed in
    let q3 = eq_iff j.lease_owner owner in
    let q4 = eq_iff head "" in
    let q5 = test_self j.last_reviewed_sha in
    (
      ground (arith, q1, q2, q3),
      ground (arith, q1, q2, q3),
      ground (arith, q1, q2, q3),
      ground (arith, q1, q2, q3, q4),
      ground (arith, q1, q2, q3, q4, q5),
      ground (arith, q1, q2, q3, q4, q5),
    )
