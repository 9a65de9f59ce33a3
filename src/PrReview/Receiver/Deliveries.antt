-- ===== src/PrReview/Receiver/Deliveries.antt =====
-- What becomes of a delivery (services/prreview/receiver/receiver.go: ServeHTTP).
use modulex.Prelude.{
  ℕ, ◌+◌, ◌<◌, String, ◌≡◌, refl, sym, ◌∙◌, ap, subst, ◌≢◌, true, false, ◌==◌, Option, none, some,
  List, [], ◌∷◌, All, Assoc, lookup, lookup-insert, lookup-remove, arith, Bool-cases, Option-cases,
  inl, inr, test_self, snoc,
}
use modulex.PrReview.Webhook.{
  ReviewRequest, Payload, ParseError, Parsed, request, not_request, verify_signature, parse_event,
}
use modulex.PrReview.Jobs.{seen, forget}
use modulex.PrReview.Receiver.{
  Request, Handler, Answers, Response, read_body, enqueue, deliver, respond_parsed, serve_body,
  serve_http,
}
use modulex.PrReview.Receiver.Records.{seen_early, deliver-record, serve_http-either}

-- The request was enqueued, and its key recorded until the end of its time.
pub record IsEnqueued (key : String) (req : ReviewRequest) (a : Answers) (h h' : Handler)
    : Type 0 where
  pub fresh : (seen key a.now h.dedup_ttl h.dedup).1 ≡ false
  pub queued : h'.queue ≡ snoc h.queue req
  pub recorded : lookup key h'.dedup ≡ some (a.now + h.dedup_ttl)
  pub ttl : h'.dedup_ttl ≡ h.dedup_ttl
  pub secret : h'.secret ≡ h.secret

lookup-seen :
    (key : String) (now ttl : ℕ) (dedup : Assoc ℕ)
    → (seen key now ttl dedup).1 ≡ false
    → lookup key (seen key now ttl dedup).0 ≡ some (now + ttl)
unfolding seen
lookup-seen key now ttl dedup e =
    ground (arith, lookup-insert key key (now + ttl) dedup, test_self key)

enqueue-IsEnqueued :
    (key : String) (req : ReviewRequest) (a : Answers) (h : Handler)
    → (enqueue key req a h).1 ≡ Response.accepted
    → ((enqueue key req a h).0.queue ≡ snoc h.queue req)
      × ((enqueue key req a h).0.dedup ≡ h.dedup)
      × ((enqueue key req a h).0.dedup_ttl ≡ h.dedup_ttl)
      × ((enqueue key req a h).0.secret ≡ h.secret)
unfolding enqueue
enqueue-IsEnqueued key req a h e = (ground arith, ground arith, ground arith, ground arith)

deliver-IsEnqueued :
    (key : String) (req : ReviewRequest) (a : Answers) (h : Handler)
    → (deliver key req a h).1 ≡ Response.accepted
    → IsEnqueued key req a h (deliver key req a h).0
unfolding deliver
deliver-IsEnqueued key req a h e = elim (Bool-cases a.seen_fails) [
  | inl f ↦ absurd (no_reply (rw (f, deliver) at e))
  | inr f ↦ elim (Bool-cases (seen key a.now h.dedup_ttl h.dedup).1) [
    | inl s ↦ absurd (no_ok (rw (f, s, deliver) at e))
    | inr s ↦
        let h' = record h { dedup = (seen key a.now h.dedup_ttl h.dedup).0 } in
        let q = enqueue-IsEnqueued key req a h' (rw (f, s, deliver) at e) in
        let kept = lookup-seen key a.now h.dedup_ttl h.dedup s in
        rw (f, s, deliver)
          (record {
            fresh = s;
            queued = q.0;
            recorded = ap (lookup key) q.1 ∙ kept;
            ttl = q.2;
            secret = q.3;
          })
  ]
]
  where
    no_reply : Response.internal_error ≢ Response.accepted
    no_reply e = cc

    no_ok : Response.ok ≢ Response.accepted
    no_ok e = cc

deliver-seen :
    (key : String) (req : ReviewRequest) (a : Answers) (h : Handler)
    → (seen key a.now h.dedup_ttl h.dedup).1 ≡ true
    → (deliver key req a h).0.queue ≡ h.queue
unfolding deliver
deliver-seen key req a h e = ground arith

respond_seen :
    (p : Parsed) (key : String) (a : Answers) (h : Handler)
    → (seen key a.now h.dedup_ttl h.dedup).1 ≡ true
    → (respond_parsed p key a h).0.queue ≡ h.queue
respond_seen (request req) key a h e = deliver-seen key req a h e
respond_seen (not_request ParseError.ignored) key a h e = refl
respond_seen (not_request ParseError.unparseable) key a h e = refl
respond_seen (not_request ParseError.no_installation) key a h e = refl
respond_seen (not_request ParseError.no_repository) key a h e = refl
respond_seen (not_request ParseError.no_pull_request) key a h e = refl

-- A request that comes before the time.
abbrev pub IsBefore : ℕ → Request × Answers → Type 0
IsBefore expiry (r, a) = a.now < expiry

module _ (hmac : List ℕ → List ℕ → List ℕ) (hex_decode : String → Option (List ℕ))
    (unmarshal : List ℕ → Option Payload) (body_key : List ℕ → String) where
  -- An accepted request: its signature is that of its body, its event asks for a review, and it was
  -- enqueued.
  pub record IsAccepted (r : Request) (a : Answers) (h h' : Handler) : Type 0 where
    pub post : (r.method == "POST") ≡ true
    pub body : List ℕ
    pub readable : read_body r.body ≡ some body
    pub signed : verify_signature hmac hex_decode h.secret body r.signature ≡ true
    pub req : ReviewRequest
    pub parsed : parse_event unmarshal r.event r.delivery body ≡ request req
    pub enqueued : IsEnqueued (body_key body) req a h h'

  responded :
      (p : Parsed) (key : String) (a : Answers) (h : Handler)
      → (respond_parsed p key a h).1 ≡ Response.accepted
      → (req : ReviewRequest) × (p ≡ request req)
        × IsEnqueued key req a h (respond_parsed p key a h).0
  responded (request req) key a h e = (req, refl, deliver-IsEnqueued key req a h e)
  responded (not_request ParseError.ignored) key a h e = absurd (no_ok e)
    where
      no_ok : Response.ok ≢ Response.accepted
      no_ok e = cc
  responded (not_request ParseError.unparseable) key a h e = absurd (no_bad e)
    where
      no_bad : Response.bad_request ≢ Response.accepted
      no_bad e = cc
  responded (not_request ParseError.no_installation) key a h e = absurd (no_bad e)
    where
      no_bad : Response.bad_request ≢ Response.accepted
      no_bad e = cc
  responded (not_request ParseError.no_repository) key a h e = absurd (no_bad e)
    where
      no_bad : Response.bad_request ≢ Response.accepted
      no_bad e = cc
  responded (not_request ParseError.no_pull_request) key a h e = absurd (no_bad e)
    where
      no_bad : Response.bad_request ≢ Response.accepted
      no_bad e = cc

  -- The two early ends of ServeHTTP's second part.
  not_unauthorized : Response.unauthorized ≢ Response.accepted
  not_unauthorized e = cc

  not_bad_request : Response.bad_request ≢ Response.accepted
  not_bad_request e = cc

  not_method : Response.method_not_allowed ≢ Response.accepted
  not_method e = cc

  serve_body-cases :
      (body : List ℕ) (r : Request) (a : Answers) (h : Handler)
      → (serve_body hmac hex_decode unmarshal body_key body r a h).1 ≡ Response.accepted
      → (verify_signature hmac hex_decode h.secret body r.signature ≡ true)
        × (serve_body hmac hex_decode unmarshal body_key body r a h
            ≡ respond_parsed (parse_event unmarshal r.event r.delivery body) (body_key body) a h)
  unfolding serve_body
  serve_body-cases body r a h e =
      elim (Bool-cases (verify_signature hmac hex_decode h.secret body r.signature)) [
        | inr f ↦ absurd (not_unauthorized (rw (f, serve_body) at e))
        | inl f ↦ elim (Bool-cases (r.delivery == "")) [
          | inl d ↦ absurd (not_bad_request (rw (f, d, serve_body) at e))
          | inr d ↦ (f, rw (f, d, serve_body) refl)
        ]
      ]

  serve_http-readable :
      (r : Request) (a : Answers) (h : Handler) (body : List ℕ)
      → (r.method == "POST") ≡ true
      → read_body r.body ≡ some body
      → serve_http hmac hex_decode unmarshal body_key r a h
        ≡ serve_body hmac hex_decode unmarshal body_key body r a h
  unfolding serve_http
  serve_http-readable r a h body p e = rw (p, e, serve_http) refl

  -- A delivery that is answered 202 was posted with the signature of its body and asks for a review; the
  -- same body had no unexpired record, its request is appended to the queue, and its record is kept for
  -- the time set.
  pub serve_http-IsAccepted :
      (r : Request) (a : Answers) (h : Handler)
      → (serve_http hmac hex_decode unmarshal body_key r a h).1 ≡ Response.accepted
      → IsAccepted r a h (serve_http hmac hex_decode unmarshal body_key r a h).0
  unfolding serve_http
  serve_http-IsAccepted r a h e = elim (Bool-cases (r.method == "POST")) [
    | inr m ↦ absurd (not_method (rw (m, serve_http) at e))
    | inl m ↦ elim (Option-cases (read_body r.body)) [
      | inl n ↦ absurd (not_bad_request (rw (m, n, serve_http) at e))
      | inr (body, s) ↦ accepted_body m body s
    ]
  ]
    where
      accepted_body :
          (r.method == "POST") ≡ true
          → (body : List ℕ) → read_body r.body ≡ some body
          → IsAccepted r a h (serve_http hmac hex_decode unmarshal body_key r a h).0
      accepted_body m body s =
          let same = serve_http-readable r a h body m s in
          let (signed, q) = serve_body-cases body r a h (sym (ap (λ x. x.1) same) ∙ e) in
          let whole = same ∙ q in
          let (req, parsed, enq) =
            responded (parse_event unmarshal r.event r.delivery body) (body_key body) a h
              (sym (ap (λ x. x.1) whole) ∙ e) in
          record {
            post = m;
            body = body;
            readable = s;
            signed = signed;
            req = req;
            parsed = parsed;
            enqueued = subst (λ x. IsEnqueued (body_key body) req a h x.0) (sym whole) enq;
          }

  serve_body-seen :
      (body : List ℕ) (r : Request) (a : Answers) (h : Handler)
      → (seen (body_key body) a.now h.dedup_ttl h.dedup).1 ≡ true
      → (serve_body hmac hex_decode unmarshal body_key body r a h).0.queue ≡ h.queue
  unfolding serve_body
  serve_body-seen body r a h e =
      elim (Bool-cases (verify_signature hmac hex_decode h.secret body r.signature)) [
        | inr f ↦ rw (f, serve_body) refl
        | inl f ↦ elim (Bool-cases (r.delivery == "")) [
          | inl d ↦ rw (f, d, serve_body) refl
          | inr d ↦
              rw (f, d, serve_body)
                (respond_seen (parse_event unmarshal r.event r.delivery body) (body_key body) a h e)
        ]
      ]

  serve_http-seen :
      (r : Request) (a : Answers) (h : Handler) (body : List ℕ)
      → read_body r.body ≡ some body
      → (seen (body_key body) a.now h.dedup_ttl h.dedup).1 ≡ true
      → (serve_http hmac hex_decode unmarshal body_key r a h).0.queue ≡ h.queue
  unfolding serve_http
  serve_http-seen r a h body s e = elim (Bool-cases (r.method == "POST")) [
    | inr m ↦ rw (m, serve_http) refl
    | inl m ↦
        ap (λ x. x.0.queue) (serve_http-readable r a h body m s) ∙ serve_body-seen body r a h e
  ]

  -- Requests one after the other.
  abbrev pub serve_each : List (Request × Answers) → Handler → Handler
  serve_each [] h = h
  serve_each ((r, a) ∷ rs) h = serve_each rs (serve_http hmac hex_decode unmarshal body_key r a h).0

  serve_each-record :
      (key : String) (expiry : ℕ) (rs : List (Request × Answers)) (h : Handler)
      → lookup key h.dedup ≡ some expiry
      → All (IsBefore expiry) rs
      → lookup key (serve_each rs h).dedup ≡ some expiry
  serve_each-record key expiry [] h e early = e
  serve_each-record key expiry ((r, a) ∷ rs) h e early =
      serve_each-record key expiry rs (serve_http hmac hex_decode unmarshal body_key r a h).0
        (serve_http-either hmac hex_decode unmarshal body_key
          (λ x. lookup key x.dedup ≡ some expiry) r a h e
          (λ k req. deliver-record key k req a h expiry e early.0))
        early.1

  -- A replay is not enqueued again. After a delivery was answered 202, a request with the same body that
  -- comes before the record of it expires adds nothing to the queue, whatever its delivery id, its event,
  -- its signature and the answers of the stores, and whatever requests come in between, all of them before
  -- the record expires too.
  pub replay-ignored :
      (r r' : Request) (a a' : Answers) (between : List (Request × Answers)) (h : Handler)
      → (serve_http hmac hex_decode unmarshal body_key r a h).1 ≡ Response.accepted
      → r'.body ≡ r.body
      → All (IsBefore (a.now + h.dedup_ttl)) between
      → a'.now < a.now + h.dedup_ttl
      → (serve_http hmac hex_decode unmarshal body_key r' a'
          (serve_each between (serve_http hmac hex_decode unmarshal body_key r a h).0)).0.queue
        ≡ (serve_each between (serve_http hmac hex_decode unmarshal body_key r a h).0).queue
  replay-ignored r r' a a' between h e same all_early early =
      let acc = serve_http-IsAccepted r a h e in
      let h' = (serve_http hmac hex_decode unmarshal body_key r a h).0 in
      let h2 = serve_each between h' in
      serve_http-seen r' a' h2 acc.body (ap read_body same ∙ acc.readable) (
        seen_early (body_key acc.body) a'.now h2.dedup_ttl (a.now + h.dedup_ttl) h2.dedup
          (serve_each-record (body_key acc.body) (a.now + h.dedup_ttl) between h'
            acc.enqueued.recorded all_early)
          early)

enqueue_fails :
    (key : String) (req : ReviewRequest) (a : Answers) (h : Handler)
    → a.forget_fails ≡ false
    → (enqueue key req a h).1 ≡ Response.internal_error
    → lookup key (enqueue key req a h).0.dedup ≡ none
unfolding enqueue forget
enqueue_fails key req a h f e = ground (arith, lookup-remove key key h.dedup, test_self key)

-- A failed enqueue does not swallow the redelivery that it provokes: when the queue refuses a delivery
-- and the record of it can be taken back, it is taken back, so that the same key counts as new at any
-- later time.
pub deliver_forgets :
    (key : String) (req : ReviewRequest) (a : Answers) (h : Handler) (later ttl : ℕ)
    → a.seen_fails ≡ false
    → a.forget_fails ≡ false
    → (deliver key req a h).1 ≡ Response.internal_error
    → (seen key later ttl (deliver key req a h).0.dedup).1 ≡ false
deliver_forgets key req a h later ttl s f e =
    elim (Bool-cases (seen key a.now h.dedup_ttl h.dedup).1) [
      | inl was ↦ absurd (seen_ok was)
      | inr new ↦ new_key (deliver key req a h).0.dedup (forgotten new)
    ]
  where
    seen_ok : (seen key a.now h.dedup_ttl h.dedup).1 ≡ true → ⊥
    seen_ok was = unfold deliver in ground arith

    forgotten :
        (seen key a.now h.dedup_ttl h.dedup).1 ≡ false
        → lookup key (deliver key req a h).0.dedup ≡ none
    forgotten new =
        unfold deliver in
        rw (s, new, deliver)
          (enqueue_fails key req a (record h { dedup = (seen key a.now h.dedup_ttl h.dedup).0 }) f
            (rw (s, new, deliver) at e))

    new_key : (dedup : Assoc ℕ) → lookup key dedup ≡ none → (seen key later ttl dedup).1 ≡ false
    new_key dedup n = unfold seen in ground arith
