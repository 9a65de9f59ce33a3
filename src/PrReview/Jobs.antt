-- ===== src/PrReview/Jobs.antt =====
-- The job document of a pull request and the decisions on its lease (services/prreview/store/store.go),
-- with the in-memory store (services/prreview/store/memory.go). An int64 is its residue modulo 2 ^ 64,
-- an instant a number, the zero time 0.
pub mod Leases
use Prim.Native.Nat.{◌%◌, ◌^◌}
use modulex.Prelude.{
  ℕ, ◌+◌, String, Bool, true, false, not, ◌&&◌, ◌||◌, ◌==◌, if◌then◌else◌, ltb, nat_eq, Option,
  none, some, List, [], ◌∷◌, Assoc, lookup, insert, remove,
}

pub data JobStatus : Type 0 where
  idle running : JobStatus

-- store.Job
pub record Job : Type 0 where
  pub status : JobStatus
  pub target_sha : String
  pub lease_expiry : ℕ
  pub lease_owner : String
  pub last_reviewed_sha : String
  pub comment_id : ℕ
  pub review_count : ℕ
  pub tokens_used : ℕ

-- The zero value, whose status "" no rule tells from idle.
abbrev pub no_job : Job
no_job = record {
  status = JobStatus.idle;
  target_sha = "";
  lease_expiry = 0;
  lease_owner = "";
  last_reviewed_sha = "";
  comment_id = 0;
  review_count = 0;
  tokens_used = 0;
}

pub data AcquireAction : Type 0 where
  run skip : AcquireAction

abbrev pub is_running : JobStatus → Bool
is_running JobStatus.running = true
is_running JobStatus.idle = false

abbrev pub int64_add : ℕ → ℕ → ℕ
int64_add a b = (a + b) % 2 ^ 64

-- The head that a delivery brings, unless it is reviewed already.
abbrev pub retarget : String → Job → Job
retarget head job =
    if not (head == job.last_reviewed_sha) || job.target_sha == ""
    then record job { target_sha = head }
    else job

-- AcquireDecision
unfoldable pub acquire_decision : Job → ℕ → String → ℕ → String → Job × AcquireAction
acquire_decision job now head ttl owner =
    let j = retarget head job in
    if is_running j.status && ltb now j.lease_expiry then (j, AcquireAction.skip) else (
      record j { status = JobStatus.running; lease_expiry = now + ttl; lease_owner = owner },
      AcquireAction.run,
    )

-- store.CompleteOutcome
pub record CompleteOutcome : Type 0 where
  pub post : Bool
  pub follow_up : Bool
  pub follow_up_sha : String

abbrev pub no_outcome : CompleteOutcome
no_outcome = record { post = false; follow_up = false; follow_up_sha = "" }

abbrev pub idle_lease : Job → Job
idle_lease j = record j { status = JobStatus.idle; lease_expiry = 0; lease_owner = "" }

-- CompleteDecision
unfoldable pub complete_decision : Job → String → ℕ → String → Job × CompleteOutcome
complete_decision job reviewed tokens owner =
    if not (job.lease_owner == owner)
    then (job, no_outcome)
    else if job.target_sha == reviewed
    then (
      idle_lease (record job {
        last_reviewed_sha = reviewed;
        review_count = int64_add job.review_count 1;
        tokens_used = int64_add job.tokens_used tokens;
      }),
      record { post = true; follow_up = false; follow_up_sha = "" },
    )
    else (idle_lease job, record { post = false; follow_up = true; follow_up_sha = job.target_sha })

-- ReleaseDecision
unfoldable pub release_decision : Job → String → Job
release_decision job owner = if not (job.lease_owner == owner) then job else idle_lease job

-- The mutations that workers make of a job (services/prreview/worker/worker.go), each with the fencing
-- token of its worker.
pub data JobOp : Type 0 where
  acquire : ℕ → String → ℕ → String → JobOp
  reanchor : String → String → JobOp
  keep_comment : ℕ → String → JobOp
  complete : String → ℕ → String → JobOp
  release : String → JobOp

unfoldable pub mutate : JobOp → Job → Job
unfolding acquire_decision complete_decision release_decision
mutate (JobOp.acquire now head ttl owner) j = (acquire_decision j now head ttl owner).0
mutate (JobOp.reanchor head owner) j =
    if j.lease_owner == owner then record j { target_sha = head } else j
mutate (JobOp.keep_comment comment owner) j =
    if nat_eq j.comment_id 0 then record j { comment_id = comment } else j
mutate (JobOp.complete sha tokens owner) j = (complete_decision j sha tokens owner).0
mutate (JobOp.release owner) j = release_decision j owner

unfoldable pub mutate_all : List JobOp → Job → Job
mutate_all [] j = j
mutate_all (op ∷ ops) j = mutate_all ops (mutate op j)

-- Memory.Seen and Memory.Forget on the dedup records, by their expiry.
unfoldable pub seen : String → ℕ → ℕ → Assoc ℕ → Assoc ℕ × Bool
seen key now ttl dedup = elim (lookup key dedup) [
  | none ↦ (insert key (now + ttl) dedup, false)
  | some expiry ↦ if ltb now expiry then (dedup, true) else (insert key (now + ttl) dedup, false)
]

unfoldable pub forget : String → Assoc ℕ → Assoc ℕ
forget key dedup = remove key dedup

-- store.Usage
pub record Usage : Type 0 where
  pub reviews : ℕ
  pub tokens : ℕ

-- Memory.Add on the entry of one installation.
abbrev pub add_usage : ℕ → ℕ → Usage → Usage
add_usage reviews tokens u = record {
  reviews = int64_add u.reviews reviews;
  tokens = int64_add u.tokens tokens;
}
