-- ===== src/PrReview/Receiver/Records.antt =====
-- What a delivery does to the dedup records (services/prreview/receiver/receiver.go: ServeHTTP).
use modulex.Prelude.{
  ℕ, ◌+◌, ◌<◌, String, ◌≡◌, sym, ◌∙◌, ap, true, false, ◌==◌, Option, some, List, String-cases,
  Assoc, lookup, lookup-insert, lookup-remove, arith, Bool-cases, Option-cases, inl, inr,
  test_of_ne,
}
use modulex.PrReview.Webhook.{
  ReviewRequest, Payload, ParseError, Parsed, request, not_request, verify_signature, parse_event,
}
use modulex.PrReview.Jobs.{seen, forget}
use modulex.PrReview.Receiver.{
  Request, Handler, Answers, read_body, enqueue, deliver, respond_parsed, serve_body, serve_http,
}

pub seen_early :
    (key : String) (now ttl expiry : ℕ) (dedup : Assoc ℕ)
    → lookup key dedup ≡ some expiry
    → now < expiry
    → (seen key now ttl dedup).1 ≡ true
unfolding seen
seen_early key now ttl expiry dedup e low = ground arith

-- What a delivery leaves of the record of another key, or of its own before it expires.
enqueue-record :
    (key k : String) (req : ReviewRequest) (a : Answers) (h : Handler) (expiry : ℕ)
    → (k == key) ≡ false
    → lookup key h.dedup ≡ some expiry
    → lookup key (enqueue k req a h).0.dedup ≡ some expiry
unfolding enqueue forget
enqueue-record key k req a h expiry d e = ground (arith, lookup-remove k key h.dedup)

seen-record :
    (key k : String) (now ttl : ℕ) (dedup : Assoc ℕ) (expiry : ℕ)
    → (k == key) ≡ false
    → lookup key dedup ≡ some expiry
    → lookup key (seen k now ttl dedup).0 ≡ some expiry
unfolding seen
seen-record key k now ttl dedup expiry d e = ground (arith, lookup-insert k key (now + ttl) dedup)

seen_early-same :
    (key : String) (now ttl expiry : ℕ) (dedup : Assoc ℕ)
    → lookup key dedup ≡ some expiry
    → now < expiry
    → (seen key now ttl dedup).0 ≡ dedup
unfolding seen
seen_early-same key now ttl expiry dedup e low = ground arith

pub deliver-record :
    (key k : String) (req : ReviewRequest) (a : Answers) (h : Handler) (expiry : ℕ)
    → lookup key h.dedup ≡ some expiry
    → a.now < expiry
    → lookup key (deliver k req a h).0.dedup ≡ some expiry
unfolding deliver
deliver-record key k req a h expiry e low = elim (Bool-cases a.seen_fails) [
  | inl f ↦ rw (f, deliver) e
  | inr f ↦ elim (Bool-cases (seen k a.now h.dedup_ttl h.dedup).1) [
    | inl s ↦ rw (f, s, deliver) (kept_by_seen)
    | inr s ↦
        rw (f, s, deliver)
          (enqueue-record key k req a (record h { dedup = (seen k a.now h.dedup_ttl h.dedup).0 })
            expiry (another s) kept_by_seen)
  ]
]
  where
    kept_by_seen : lookup key (seen k a.now h.dedup_ttl h.dedup).0 ≡ some expiry
    kept_by_seen = elim (String-cases k key) [
      | inl same ↦
          let own : lookup k h.dedup ≡ some expiry = ap (λ x. lookup x h.dedup) same ∙ e in
          ap (lookup key) (seen_early-same k a.now h.dedup_ttl expiry h.dedup own low) ∙ e
      | inr d ↦ seen-record key k a.now h.dedup_ttl h.dedup expiry (test_of_ne k key d) e
    ]

    true_false : true ≡ false → ⊥
    true_false e = cc

    another : (seen k a.now h.dedup_ttl h.dedup).1 ≡ false → (k == key) ≡ false
    another new = elim (String-cases k key) [
      | inl same ↦
          let own : lookup k h.dedup ≡ some expiry = ap (λ x. lookup x h.dedup) same ∙ e in
          absurd (true_false (sym (seen_early k a.now h.dedup_ttl expiry h.dedup own low) ∙ new))
      | inr d ↦ test_of_ne k key d
    ]

module _ (hmac : List ℕ → List ℕ → List ℕ) (hex_decode : String → Option (List ℕ))
    (unmarshal : List ℕ → Option Payload) (body_key : List ℕ → String) where
  -- ServeHTTP leaves the handler as it is, or delivers a request.
  respond-either :
      (Q : Handler → Type 0) (p : Parsed) (key : String) (a : Answers) (h : Handler)
      → Q h
      → ((k : String) (req : ReviewRequest) → Q (deliver k req a h).0)
      → Q (respond_parsed p key a h).0
  respond-either Q (request req) key a h q d = d key req
  respond-either Q (not_request ParseError.ignored) key a h q d = q
  respond-either Q (not_request ParseError.unparseable) key a h q d = q
  respond-either Q (not_request ParseError.no_installation) key a h q d = q
  respond-either Q (not_request ParseError.no_repository) key a h q d = q
  respond-either Q (not_request ParseError.no_pull_request) key a h q d = q

  serve_body-either :
      (Q : Handler → Type 0) (body : List ℕ) (r : Request) (a : Answers) (h : Handler)
      → Q h
      → ((k : String) (req : ReviewRequest) → Q (deliver k req a h).0)
      → Q (serve_body hmac hex_decode unmarshal body_key body r a h).0
  unfolding serve_body
  serve_body-either Q body r a h q d =
      elim (Bool-cases (verify_signature hmac hex_decode h.secret body r.signature)) [
        | inr f ↦ rw (f, serve_body) q
        | inl f ↦ elim (Bool-cases (r.delivery == "")) [
          | inl e ↦ rw (f, e, serve_body) q
          | inr e ↦
              rw (f, e, serve_body)
                (respond-either Q (parse_event unmarshal r.event r.delivery body) (body_key body) a
                  h q d)
        ]
      ]

  pub serve_http-either :
      (Q : Handler → Type 0) (r : Request) (a : Answers) (h : Handler)
      → Q h
      → ((k : String) (req : ReviewRequest) → Q (deliver k req a h).0)
      → Q (serve_http hmac hex_decode unmarshal body_key r a h).0
  unfolding serve_http
  serve_http-either Q r a h q d = elim (Bool-cases (r.method == "POST")) [
    | inr m ↦ rw (m, serve_http) q
    | inl m ↦ elim (Option-cases (read_body r.body)) [
      | inl n ↦ rw (m, n, serve_http) q
      | inr (body, s) ↦ rw (m, s, serve_http) (serve_body-either Q body r a h q d)
    ]
  ]
