-- ===== src/PrReview/Worker/Handling.antt =====
-- What Handle promises (services/prreview/worker/worker.go).
use modulex.Prelude.{
  ℕ, ◌+◌, String, ◌≡◌, refl, sym, ◌∙◌, ap, ◌≢◌, Bool, true, false, if◌then◌else◌, nat_eq, Option,
  none, some, List, [], ◌∷◌, All, arith, snoc, test_self,
}
use text.Mathlib.TextEquality.{eq_iff}
use modulex.PrReview.Webhook.{ReviewRequest}
use modulex.PrReview.Jobs.{
  JobStatus, Job, JobOp, mutate, mutate_all, AcquireAction, acquire_decision, CompleteOutcome,
  complete_decision, release_decision, is_running, int64_add,
}
use modulex.PrReview.Jobs.Leases.{token_of}
use modulex.PrReview.Worker.{
  Access, HeadAnswer, Commentary, CheckResult, Answers, Effect, World, WorkerError, Outcome, found,
  and_then, reanchored, reanchor_target, post_comment, text_of, tokens_of, settle, complete, report,
  review_once, release_lease, release_on_error, on_action, handle,
}

abbrev pub IsFree : String → Job → Type 0
IsFree owner j = j.lease_owner ≢ owner

-- Every operation that comes in between carries another fencing token.
abbrev pub AreOthers : String → List JobOp → Type 0
AreOthers owner = All (λ op. token_of op ≢ owner)

mutate-IsFree :
    (owner : String) (j : Job) (op : JobOp)
    → owner ≢ ""
    → token_of op ≢ owner
    → IsFree owner j
    → IsFree owner (mutate op j)
unfolding mutate
mutate-IsFree owner j (JobOp.acquire now head ttl other) some_owner o f =
    λ e. ground (arith, some_owner, o, f, e)
mutate-IsFree owner j (JobOp.reanchor head other) some_owner o f =
    λ e. ground (arith, some_owner, o, f, e)
mutate-IsFree owner j (JobOp.keep_comment comment other) some_owner o f =
    λ e. ground (arith, some_owner, o, f, e)
mutate-IsFree owner j (JobOp.complete sha tokens other) some_owner o f =
    λ e. ground (arith, some_owner, o, f, e, eq_iff j.lease_owner other)
mutate-IsFree owner j (JobOp.release other) some_owner o f =
    λ e. ground (arith, some_owner, o, f, e, eq_iff j.lease_owner other)

mutate_all-IsFree :
    (owner : String) (j : Job) (ops : List JobOp)
    → owner ≢ ""
    → AreOthers owner ops
    → IsFree owner j
    → IsFree owner (mutate_all ops j)
unfolding mutate_all
mutate_all-IsFree owner j [] some_owner o f = f
mutate_all-IsFree owner j (op ∷ ops) some_owner o f =
    mutate_all-IsFree owner (mutate op j) ops some_owner o.1
      (mutate-IsFree owner j op some_owner o.0 f)

-- A decision that frees the lease of its owner only, on a document that others have changed.
release_decision-IsFree :
    (owner : String) (j : Job) → owner ≢ "" → IsFree owner (release_decision j owner)
unfolding release_decision
release_decision-IsFree owner j some_owner =
    λ e. ground (arith, some_owner, e, eq_iff j.lease_owner owner)

complete_decision-IsFree :
    (j : Job) (sha : String) (tokens : ℕ) (owner : String)
    → owner ≢ ""
    → IsFree owner (complete_decision j sha tokens owner).0
unfolding complete_decision
complete_decision-IsFree j sha tokens owner some_owner =
    λ e. ground (arith, some_owner, e, eq_iff j.lease_owner owner)

settle-job :
    (a : Answers) (req : ReviewRequest) (o : CompleteOutcome) (w : World)
    → (settle a req o w).0.job ≡ w.job
settle-job a req o w = ground (arith)

-- A review that ends without an error has freed its lease.
abbrev pub Releases : String → Outcome → Type 0
Releases owner o = o.1 ≡ none → IsFree owner o.0.job

failed-Releases : (owner : String) (w : World) (e : WorkerError) → Releases owner (w, some e)
failed-Releases owner w e done = ground (arith, done)

if-Releases :
    (owner : String) (b : Bool) (o o' : Outcome)
    → Releases owner o
    → Releases owner o'
    → Releases owner (if b then o else o')
if-Releases owner true o o' h h' = h
if-Releases owner false o o' h h' = h'

if-IsFree :
    (owner : String) (b : Bool) (o o' : Outcome)
    → IsFree owner o.0.job
    → IsFree owner o'.0.job
    → IsFree owner (if b then o else o').0.job
if-IsFree owner true o o' h h' = h
if-IsFree owner false o o' h h' = h'

and_then-Releases :
    (owner : String) (o : Outcome) (f : World → Outcome)
    → ((w : World) → Releases owner (f w))
    → Releases owner (and_then o f)
and_then-Releases owner (w, none) f h = h w
and_then-Releases owner (w, some e) f h = failed-Releases owner w e

complete-Releases :
    (a : Answers) (req : ReviewRequest) (owner sha : String) (w : World)
    → owner ≢ ""
    → Releases owner (complete a req owner sha w)
unfolding complete
complete-Releases a req owner sha w some_owner =
    let j = mutate_all a.complete.others w.job in
    let d = complete_decision j sha (tokens_of a.commentary) owner in
    let kept = settle-job a req d.1 (record w { job = d.0 }) in
    let freed = complete_decision-IsFree j sha (tokens_of a.commentary) owner some_owner in
    if-Releases owner a.complete.fails (found a.complete w, some WorkerError.completing)
      (settle a req d.1 (record w { job = d.0 }))
      (failed-Releases owner (found a.complete w) WorkerError.completing)
      (λ done e. freed (sym (ap (λ j. j.lease_owner) kept) ∙ e))

report-Releases :
    (a : Answers) (req : ReviewRequest) (owner sha : String) (r : Option (List CheckResult))
    (w : World)
    → owner ≢ ""
    → Releases owner (report a req owner sha r w)
report-Releases a req owner sha none w some_owner = failed-Releases owner w WorkerError.reviewing
report-Releases a req owner sha (some results) w some_owner =
    and_then-Releases owner (post_comment a owner sha results w) (complete a req owner sha)
      (λ w'. complete-Releases a req owner sha w' some_owner)

review_once-Releases :
    (a : Answers) (req : ReviewRequest) (owner sha : String) (w : World)
    → owner ≢ ""
    → Releases owner (review_once a req owner sha w)
unfolding review_once
review_once-Releases a req owner sha w some_owner =
    let fetched : World → Outcome = λ w'.
      if a.fetch_fails
      then (w', some WorkerError.fetching)
      else report a req owner (reanchored a.head sha) a.results w' in
    if-Releases owner a.mint_fails (w, some WorkerError.minting)
      (and_then (reanchor_target a owner sha w) fetched)
      (failed-Releases owner w WorkerError.minting)
      (and_then-Releases owner (reanchor_target a owner sha w) fetched (λ w'.
        if-Releases owner a.fetch_fails (w', some WorkerError.fetching)
          (report a req owner (reanchored a.head sha) a.results w')
          (failed-Releases owner w' WorkerError.fetching)
          (report-Releases a req owner (reanchored a.head sha) a.results w' some_owner)))

release_lease-IsFree :
    (a : Answers) (owner : String) (w : World)
    → owner ≢ ""
    → a.release.fails ≡ false
    → IsFree owner (release_lease a owner w).job
unfolding release_lease
release_lease-IsFree a owner w some_owner works =
    let freed = release_decision-IsFree owner (mutate_all a.release.others w.job) some_owner in
    λ e. ground (arith, works, freed, e)

release_on_error-IsFree :
    (a : Answers) (owner : String) (o : Outcome)
    → owner ≢ ""
    → a.release.fails ≡ false
    → Releases owner o
    → IsFree owner (release_on_error a owner o).0.job
release_on_error-IsFree a owner (w, none) some_owner works h = h refl
release_on_error-IsFree a owner (w, some e) some_owner works h =
    release_lease-IsFree a owner w some_owner works

-- A delivery that is skipped does not take the lease.
skipped-IsFree :
    (j : Job) (now ttl : ℕ) (head owner : String)
    → (acquire_decision j now head ttl owner).1 ≡ AcquireAction.skip
    → IsFree owner j
    → IsFree owner (acquire_decision j now head ttl owner).0
unfolding acquire_decision
skipped-IsFree j now ttl head owner skipped free = λ e. ground (arith, skipped, free, e)

on_action-IsFree :
    (a : Answers) (req : ReviewRequest) (owner : String) (action : AcquireAction) (w : World)
    → owner ≢ ""
    → a.release.fails ≡ false
    → (action ≡ AcquireAction.skip → IsFree owner w.job)
    → IsFree owner (on_action a req owner action w).0.job
on_action-IsFree a req owner AcquireAction.skip w some_owner works skipped = skipped refl
on_action-IsFree a req owner AcquireAction.run w some_owner works skipped =
    release_on_error-IsFree a owner (review_once a req owner w.job.target_sha w) some_owner works
      (review_once-Releases a req owner w.job.target_sha w some_owner)

-- Whatever Handle meets, an error of any step, a lease of another worker, other workers that move the
-- target or take the lease between its steps, it does not keep its lease, if the release that follows an
-- error does not fail itself. The fencing token must be its own: it is not the empty one, not in the
-- document before, and no other worker has it when the lease is acquired.
pub handle-IsFree :
    (a : Answers) (req : ReviewRequest) (ttl : ℕ) (owner : String) (w : World)
    → owner ≢ ""
    → w.job.lease_owner ≢ owner
    → AreOthers owner a.acquire.others
    → a.release.fails ≡ false
    → (handle a req ttl owner w).0.job.lease_owner ≢ owner
unfolding handle
handle-IsFree a req ttl owner w some_owner free others works =
    let j = mutate_all a.acquire.others w.job in
    let d = acquire_decision j a.now req.head_sha ttl owner in
    let before = mutate_all-IsFree owner w.job a.acquire.others some_owner others free in
    let after =
      on_action-IsFree a req owner d.1 (record w { job = d.0 }) some_owner works
        (λ e. skipped-IsFree j a.now ttl req.head_sha owner e before) in
    if-IsFree owner a.acquire.fails (found a.acquire w, some WorkerError.acquiring)
      (on_action a req owner d.1 (record w { job = d.0 })) before after

abbrev quiet : Access
quiet = record { others = []; fails = false }

-- The answers to a worker that runs alone and meets no failure.
abbrev pub quiet_answers : ℕ → String → List CheckResult → Commentary → ℕ → Answers
quiet_answers now head results commentary comment_id = record {
  now = now;
  acquire = quiet;
  mint_fails = false;
  head = HeadAnswer.head_is head;
  reanchor = quiet;
  fetch_fails = false;
  results = some results;
  commentary = commentary;
  get = quiet;
  comment_fails = false;
  comment_id = comment_id;
  keep = quiet;
  complete = quiet;
  ledger_fails = false;
  enqueue_fails = false;
  release = quiet;
}

abbrev leased : Job → ℕ → String → String → Job
leased j expiry head owner = record j {
  status = JobStatus.running;
  target_sha = head;
  lease_expiry = expiry;
  lease_owner = owner;
}

abbrev pub reviewed_job : Job → String → ℕ → ℕ → Job
reviewed_job j head comment_id tokens = record {
  status = JobStatus.idle;
  target_sha = head;
  lease_expiry = 0;
  lease_owner = "";
  last_reviewed_sha = head;
  comment_id = if nat_eq j.comment_id 0 then comment_id else j.comment_id;
  review_count = int64_add j.review_count 1;
  tokens_used = int64_add j.tokens_used tokens;
}

abbrev pub written : Job → String → List CheckResult → Commentary → Effect
written j head results c =
    if nat_eq j.comment_id 0
    then Effect.comment_created head results (text_of c)
    else Effect.comment_updated head results (text_of c)

acquired :
    (j : Job) (now ttl : ℕ) (head owner : String)
    → is_running j.status ≡ false
    → head ≢ j.last_reviewed_sha
    → acquire_decision j now head ttl owner ≡ (leased j (now + ttl) head owner, AcquireAction.run)
unfolding acquire_decision
acquired j now ttl head owner idle fresh =
    ground (arith, idle, fresh, eq_iff head j.last_reviewed_sha)

-- The review itself, on a document with the lease of the worker and no comment yet, or one.
reviewed :
    (now expiry comment_id : ℕ) (c : Commentary) (req : ReviewRequest) (owner : String) (w : World)
    (results : List CheckResult)
    → review_once
        (quiet_answers now req.head_sha results c comment_id)
        req
        owner
        req.head_sha
        (record w { job = leased w.job expiry req.head_sha owner })
      ≡ (
        record {
          job = reviewed_job w.job req.head_sha comment_id (tokens_of c);
          effects =
              snoc
                (snoc w.effects (written w.job req.head_sha results c))
                (Effect.usage_added (tokens_of c));
        },
        none,
      )
unfolding review_once reanchor_target post_comment complete complete_decision mutate mutate_all
reviewed now expiry comment_id c req owner w results =
    ground (arith, test_self owner, test_self req.head_sha)

-- A run that nothing disturbs does the whole review: with no failure and no other worker, the lease free
-- and a head that was not reviewed, Handle returns no error, writes one comment for that head, a new one
-- exactly when the job has none, keeps its id, counts one review with the tokens in the job and in the
-- ledger, records the head as reviewed and leaves the job idle.
pub handle_quiet :
    (now ttl comment_id : ℕ) (c : Commentary) (req : ReviewRequest) (owner : String) (w : World)
    (results : List CheckResult)
    → is_running w.job.status ≡ false
    → req.head_sha ≢ w.job.last_reviewed_sha
    → handle (quiet_answers now req.head_sha results c comment_id) req ttl owner w ≡ (
      record {
        job = reviewed_job w.job req.head_sha comment_id (tokens_of c);
        effects =
            snoc
              (snoc w.effects (written w.job req.head_sha results c))
              (Effect.usage_added (tokens_of c));
      },
      none,
    )
unfolding handle mutate_all
handle_quiet now ttl comment_id c req owner w results idle fresh =
    let e = acquired w.job now ttl req.head_sha owner idle fresh in
    let h = reviewed now (now + ttl) comment_id c req owner w results in rw (e, h)
