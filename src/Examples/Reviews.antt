-- ===== src/Examples/Reviews.antt =====
-- The review jobs, the rate limiter and the worker on test data (services/prreview/).
use modulex.Prelude.{
  ℕ, ◌≤◌, ◌*◌, String, ◌≡◌, refl, ◌≢◌, true, false, none, List, [], ◌∷◌, arith, ne_of_test,
}
use modulex.PrReview.Jobs.{
  JobStatus, Job, no_job, AcquireAction, acquire_decision, complete_decision, JobOp,
}
use modulex.PrReview.Jobs.Leases.{push-follow_up}
use modulex.PrReview.Limits.{new_limiter, allow_all}
use modulex.PrReview.Limits.Windows.{spec_all, allow_all_refines}
use modulex.PrReview.Limits.Quota.{granted, granted_le}
use modulex.PrReview.Webhook.{ReviewRequest}
use modulex.PrReview.Worker.{Commentary, CheckResult, Answers, Effect, World, handle}
use modulex.PrReview.Worker.Handling.{quiet_answers, reviewed_job, handle-IsFree, handle_quiet}

abbrev me : String
me = "worker 1"

abbrev you : String
you = "worker 2"

abbrev nobody : String
nobody = ""

abbrev old_head : String
old_head = "c0ffee"

abbrev new_head : String
new_head = "decade"

abbrev first_head : String
first_head = "facade"

abbrev me-ne-you : you ≢ me
me-ne-you = ne_of_test you me refl

abbrev leased : Job
leased = record no_job {
  status = JobStatus.running;
  target_sha = old_head;
  lease_expiry = 100;
  lease_owner = me;
  last_reviewed_sha = first_head;
}

-- Another worker tries to take the job, to complete it and to release it.
abbrev attacks : List JobOp
attacks = JobOp.acquire 50 new_head 60 you ∷ JobOp.complete old_head 7 you ∷ JobOp.release you ∷ []

push-follow_up_example :
    ((acquire_decision leased 50 new_head 60 you).1 ≡ AcquireAction.skip)
    × ((complete_decision (acquire_decision leased 50 new_head 60 you).0 old_head 7 me).1
        ≡ record { post = false; follow_up = true; follow_up_sha = new_head })
    × ((acquire_decision
          (complete_decision (acquire_decision leased 50 new_head 60 you).0 old_head 7 me).0
          70
          new_head
          60
          you).1
        ≡ AcquireAction.run)
    × ((acquire_decision
          (complete_decision (acquire_decision leased 50 new_head 60 you).0 old_head 7 me).0
          70
          new_head
          60
          you).0.target_sha
        ≡ new_head)
    × ((acquire_decision
          (complete_decision (acquire_decision leased 50 new_head 60 you).0 old_head 7 me).0
          70
          first_head
          60
          you).1
        ≡ AcquireAction.run)
    × ((acquire_decision
          (complete_decision (acquire_decision leased 50 new_head 60 you).0 old_head 7 me).0
          70
          first_head
          60
          you).0.target_sha
        ≡ new_head)
push-follow_up_example =
    push-follow_up leased 50 70 60 new_head old_head me you you 7 refl (omega arith) refl
      (ne_of_test new_head first_head refl) (ne_of_test new_head old_head refl)
      (ne_of_test new_head nobody refl)

-- One installation calls four times, another once.
abbrev calls : List (ℕ × ℕ)
calls = (1, 10) ∷ (1, 12) ∷ (2, 13) ∷ (1, 14) ∷ (1, 75) ∷ []

allow_all_refines_example :
    (allow_all calls (new_limiter 2 60)).1 ≡ spec_all calls (new_limiter 2 60)
allow_all_refines_example =
    allow_all_refines 2 60 calls
      (omega arith, (omega arith, (omega arith, (omega arith, (omega arith, tt)))))

granted_le_example :
    granted 1
      ((1, 40) ∷ (1, 41) ∷ [])
      (allow_all ((1, 40) ∷ (1, 41) ∷ []) (allow_all ((1, 10) ∷ []) (new_limiter 2 60)).0).1
    ≤ 2 * 2
granted_le_example =
    granted_le 2 60 1 40 41 ((1, 10) ∷ []) ((1, 40) ∷ (1, 41) ∷ []) (omega arith)
      (omega arith, (omega arith, tt)) (omega arith, (omega arith, tt)) (omega arith)

abbrev push : ReviewRequest
push = record {
  installation_id = 1;
  owner = "mediusfy";
  repo = "modulex";
  pr_number = 7;
  head_sha = new_head;
  base_ref = "main";
  clone_url = "https://example.org/modulex.git";
  delivery_id = "d-1";
}

abbrev lint : CheckResult
lint = record { name = "lint"; failed = false }

abbrev reviewed_before : World
reviewed_before = record { job = record no_job { last_reviewed_sha = first_head }; effects = [] }

-- The model fails, the comment cannot be written, and another worker moves the target meanwhile.
abbrev unlucky : Answers
unlucky = record (quiet_answers 5 new_head (lint ∷ []) (Commentary.comment_failed 3) 9) {
  comment_fails = true;
  get = record { others = JobOp.acquire 6 old_head 60 you ∷ []; fails = false };
}

handle-IsFree_example : (handle unlucky push 60 me reviewed_before).0.job.lease_owner ≢ me
handle-IsFree_example =
    handle-IsFree unlucky push 60 me reviewed_before (ne_of_test me nobody refl)
      (ne_of_test nobody me refl) tt refl

handle_quiet_example :
    handle
      (quiet_answers 5 new_head (lint ∷ []) (Commentary.comment "fine" 3) 9)
      push
      60
      me
      reviewed_before
    ≡ (
      record {
        job = reviewed_job reviewed_before.job new_head 9 3;
        effects = Effect.comment_created new_head (lint ∷ []) "fine" ∷ Effect.usage_added 3 ∷ [];
      },
      none,
    )
handle_quiet_example =
    handle_quiet 5 60 9 (Commentary.comment "fine" 3) push me reviewed_before (lint ∷ []) refl
      (ne_of_test new_head first_head refl)
