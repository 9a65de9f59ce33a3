-- ===== src/PrReview/Worker.antt =====
-- The worker of review jobs (services/prreview/worker/worker.go: Handle, reviewOnce, reanchorTarget,
-- aiCommentary, postComment, complete, releaseLease) on the job document of its pull request. What other
-- workers do to the document before each access is a list of mutations; the answers of GitHub, of the
-- engine, of the model and of the stores are given. The text of the comment is not modelled, but what it
-- is composed of.
pub mod Handling
use Prim.Native.String.{◌++◌}
use modulex.Prelude.{
  ℕ, String, Bool, true, false, not, ◌||◌, ◌==◌, if◌then◌else◌, nat_eq, Option, none, some, List,
  [], ◌∷◌, snoc,
}
use modulex.PrReview.Webhook.{ReviewRequest}
use modulex.PrReview.Jobs.{
  Job, JobOp, mutate, mutate_all, AcquireAction, acquire_decision, CompleteOutcome,
  complete_decision, release_decision,
}

-- One access to the job store: what others did before it, and whether its transaction fails.
pub record Access : Type 0 where
  pub others : List JobOp
  pub fails : Bool

-- The answer of `PRHead`, if there is a reader.
pub data HeadAnswer : Type 0 where
  no_reader lookup_failed : HeadAnswer
  head_is : String → HeadAnswer

-- The answers about the commentary: no configuration or a disabled one; a failed comment with the tokens
-- it took; a comment with its tokens.
pub data Commentary : Type 0 where
  engine_only : Commentary
  comment_failed : ℕ → Commentary
  comment : String → ℕ → Commentary

-- provenance.VerificationResult by its name and whether it failed.
pub record CheckResult : Type 0 where
  pub name : String
  pub failed : Bool

pub record Answers : Type 0 where
  pub now : ℕ
  pub acquire : Access
  pub mint_fails : Bool
  pub head : HeadAnswer
  pub reanchor : Access
  pub fetch_fails : Bool
  pub results : Option (List CheckResult)
  pub commentary : Commentary
  pub get : Access
  pub comment_fails : Bool
  pub comment_id : ℕ
  pub keep : Access
  pub complete : Access
  pub ledger_fails : Bool
  pub enqueue_fails : Bool
  pub release : Access

-- What the worker does outside of the job document.
pub data Effect : Type 0 where
  comment_created comment_updated : String → List CheckResult → String → Effect
  usage_added : ℕ → Effect
  enqueued : ReviewRequest → Effect

pub record World : Type 0 where
  pub job : Job
  pub effects : List Effect

pub data WorkerError : Type 0 where
  acquiring minting reanchoring fetching reviewing re_reading commenting keeping completing :
      WorkerError
  enqueueing : WorkerError

abbrev pub Outcome : Type 0
Outcome = World × Option WorkerError

-- The document as the access finds it.
abbrev pub found : Access → World → World
found a w = record w { job = mutate_all a.others w.job }

-- `Jobs.Mutate`
abbrev pub access : Access → WorkerError → (Job → Job) → World → Outcome
access a e f w =
    let w' = found a w in if a.fails then (w', some e) else (record w' { job = f w'.job }, none)

abbrev pub and_then : Outcome → (World → Outcome) → Outcome
and_then (w, none) f = f w
and_then (w, some e) f = (w, some e)

abbrev pub require : Bool → WorkerError → World → Outcome
require fails e w = if fails then (w, some e) else (w, none)

-- The head that the review runs against.
abbrev pub reanchored : HeadAnswer → String → String
reanchored HeadAnswer.no_reader sha = sha
reanchored HeadAnswer.lookup_failed sha = sha
reanchored (HeadAnswer.head_is head) sha = head

-- reanchorTarget
unfoldable pub reanchor_target : Answers → String → String → World → Outcome
reanchor_target a owner sha w =
    if reanchored a.head sha == sha
    then (w, none)
    else access a.reanchor WorkerError.reanchoring
        (mutate (JobOp.reanchor (reanchored a.head sha) owner)) w

abbrev pub text_of : Commentary → String
text_of Commentary.engine_only = ""
text_of (Commentary.comment_failed tokens) = ""
text_of (Commentary.comment text tokens) = text

abbrev pub tokens_of : Commentary → ℕ
tokens_of Commentary.engine_only = 0
tokens_of (Commentary.comment_failed tokens) = tokens
tokens_of (Commentary.comment text tokens) = tokens

abbrev pub add_effect : Effect → World → World
add_effect e w = record w { effects = snoc w.effects e }

-- postComment past its test that the review is still wanted.
abbrev pub write_comment : Answers → String → List CheckResult → World → Outcome
write_comment a sha results w =
    if not (nat_eq w.job.comment_id 0)
    then if a.comment_fails
      then (w, some WorkerError.commenting)
      else (add_effect (Effect.comment_updated sha results (text_of a.commentary)) w, none)
    else if a.comment_fails
    then (w, some WorkerError.commenting)
    else access a.keep WorkerError.keeping (mutate (JobOp.keep_comment a.comment_id ""))
        (add_effect (Effect.comment_created sha results (text_of a.commentary)) w)

-- postComment
unfoldable pub post_comment : Answers → String → String → List CheckResult → World → Outcome
post_comment a owner sha results w =
    let w' = found a.get w in
    if a.get.fails
    then (w', some WorkerError.re_reading)
    else if not (w'.job.target_sha == sha) || not (w'.job.lease_owner == owner)
    then (w', none)
    else write_comment a sha results w'

-- The request of the follow-up.
abbrev pub follow_up : ReviewRequest → String → ReviewRequest
follow_up req sha = record req { head_sha = sha; delivery_id = req.delivery_id ++ "+followup" }

-- complete past its mutation.
abbrev pub settle : Answers → ReviewRequest → CompleteOutcome → World → Outcome
settle a req o w =
    let w' =
      if o.post
      then if a.ledger_fails then w else add_effect (Effect.usage_added (tokens_of a.commentary)) w
      else w in
    if o.follow_up
    then if a.enqueue_fails
      then (w', some WorkerError.enqueueing)
      else (add_effect (Effect.enqueued (follow_up req o.follow_up_sha)) w', none)
    else (w', none)

-- complete
unfoldable pub complete : Answers → ReviewRequest → String → String → World → Outcome
unfolding complete_decision
complete a req owner sha w =
    let w' = found a.complete w in
    if a.complete.fails
    then (w', some WorkerError.completing)
    else let d = complete_decision w'.job sha (tokens_of a.commentary) owner in
      settle a req d.1 (record w' { job = d.0 })

-- reviewOnce past the engine's answer.
abbrev pub report :
    Answers → ReviewRequest → String → String → Option (List CheckResult) → World → Outcome
report a req owner sha none w = (w, some WorkerError.reviewing)
report a req owner sha (some results) w =
    and_then (post_comment a owner sha results w) (complete a req owner sha)

-- reviewOnce
unfoldable pub review_once : Answers → ReviewRequest → String → String → World → Outcome
review_once a req owner sha w =
    if a.mint_fails
    then (w, some WorkerError.minting)
    else and_then (reanchor_target a owner sha w) (λ w'.
      if a.fetch_fails
      then (w', some WorkerError.fetching)
      else report a req owner (reanchored a.head sha) a.results w')

-- releaseLease, whose error is only logged.
unfoldable pub release_lease : Answers → String → World → World
unfolding release_decision
release_lease a owner w =
    let w' = found a.release w in
    if a.release.fails then w' else record w' { job = release_decision w'.job owner }

abbrev pub release_on_error : Answers → String → Outcome → Outcome
release_on_error a owner (w, none) = (w, none)
release_on_error a owner (w, some e) = (release_lease a owner w, some e)

abbrev pub on_action : Answers → ReviewRequest → String → AcquireAction → World → Outcome
on_action a req owner AcquireAction.skip w = (w, none)
on_action a req owner AcquireAction.run w =
    release_on_error a owner (review_once a req owner w.job.target_sha w)

-- Handle
unfoldable pub handle : Answers → ReviewRequest → ℕ → String → World → Outcome
unfolding acquire_decision
handle a req ttl owner w =
    let w' = found a.acquire w in
    if a.acquire.fails
    then (w', some WorkerError.acquiring)
    else let d = acquire_decision w'.job a.now req.head_sha ttl owner in
      on_action a req owner d.1 (record w' { job = d.0 })
