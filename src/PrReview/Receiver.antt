-- ===== src/PrReview/Receiver.antt =====
-- The receiver of webhooks (services/prreview/receiver/receiver.go: ServeHTTP). It works on the dedup
-- records, the rate limiter and the queue; how the stores answer is given to each request.
pub mod Records
pub mod Deliveries
use modulex.Prelude.{
  ℕ, suc, String, Bool, true, false, not, ◌||◌, ◌==◌, if◌then◌else◌, ltb, Option, none, some, List,
  [], ◌∷◌, Assoc, lookup, insert, remove, length, take, snoc,
}
use modulex.PrReview.Webhook.{
  ReviewRequest, Payload, ParseError, Parsed, request, not_request, verify_signature, parse_event,
}
use modulex.PrReview.Jobs.{seen, forget}
use modulex.PrReview.Limits.{Limiter, allow}

-- An HTTP request, as far as it is read; the body is none if it cannot be read.
pub record Request : Type 0 where
  pub method : String
  pub body : Option (List ℕ)
  pub signature : String
  pub delivery : String
  pub event : String

-- The stores and the limiter of receiver.Handler.
pub record Handler : Type 0 where
  pub secret : List ℕ
  pub dedup : Assoc ℕ
  pub dedup_ttl : ℕ
  pub limiter : Limiter
  pub queue : List ReviewRequest

-- Which of the stores fail a request, and the clock.
pub record Answers : Type 0 where
  pub now : ℕ
  pub seen_fails : Bool
  pub enqueue_fails : Bool
  pub forget_fails : Bool

abbrev pub max_body_bytes : ℕ
max_body_bytes = 1048576

pub data Response : Type 0 where
  ok accepted bad_request unauthorized method_not_allowed internal_error : Response

-- `io.ReadAll(io.LimitReader(r.Body, maxBodyBytes+1))` and the test of its length.
abbrev pub read_body : Option (List ℕ) → Option (List ℕ)
read_body none = none
read_body (some bytes) =
    let body = take (suc max_body_bytes) bytes in
    if ltb max_body_bytes (length body) then none else some body

-- The end of ServeHTTP: the rate limit and the queue.
unfoldable pub enqueue : String → ReviewRequest → Answers → Handler → Handler × Response
enqueue key req a h =
    let (l, within) = allow req.installation_id a.now h.limiter in
    let h' = record h { limiter = l } in
    if not within
    then (h', Response.ok)
    else if a.enqueue_fails
    then (
      if a.forget_fails then h' else record h' { dedup = forget key h'.dedup },
      Response.internal_error,
    )
    else (record h' { queue = snoc h'.queue req }, Response.accepted)

-- The dedup of a parsed request.
unfoldable pub deliver : String → ReviewRequest → Answers → Handler → Handler × Response
unfolding enqueue
deliver key req a h =
    if a.seen_fails
    then (h, Response.internal_error)
    else let (dedup, was_seen) = seen key a.now h.dedup_ttl h.dedup in
      let h' = record h { dedup = dedup } in
      if was_seen then (h', Response.ok) else enqueue key req a h'

abbrev pub respond_parsed : Parsed → String → Answers → Handler → Handler × Response
respond_parsed (not_request ParseError.ignored) key a h = (h, Response.ok)
respond_parsed (not_request _) key a h = (h, Response.bad_request)
respond_parsed (request req) key a h = deliver key req a h

module _ (hmac : List ℕ → List ℕ → List ℕ) (hex_decode : String → Option (List ℕ))
    (unmarshal : List ℕ → Option Payload) (body_key : List ℕ → String) where
  -- ServeHTTP with the body read.
  unfoldable pub serve_body : List ℕ → Request → Answers → Handler → Handler × Response
  unfolding deliver
  serve_body body r a h =
      if not (verify_signature hmac hex_decode h.secret body r.signature)
      then (h, Response.unauthorized)
      else if r.delivery == ""
      then (h, Response.bad_request)
      else respond_parsed (parse_event unmarshal r.event r.delivery body) (body_key body) a h

  -- ServeHTTP
  unfoldable pub serve_http : Request → Answers → Handler → Handler × Response
  unfolding serve_body
  serve_http r a h =
      if not (r.method == "POST")
      then (h, Response.method_not_allowed)
      else elim (read_body r.body) [
        | none ↦ (h, Response.bad_request)
        | some body ↦ serve_body body r a h
      ]
