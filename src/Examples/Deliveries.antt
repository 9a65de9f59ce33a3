-- ===== src/Examples/Deliveries.antt =====
-- The receiver on test data (services/prreview/receiver/receiver.go), with a toy hash and codecs.
use modulex.Prelude.{
  nat_eq, length, ◌==◌, if◌then◌else◌, ℕ, String, ◌≡◌, refl, true, false, Option, some, List, [],
  ◌∷◌, ◌++◌, arith,
}
use modulex.PrReview.Jobs.{seen}
use modulex.PrReview.Limits.{new_limiter, allow}
use modulex.PrReview.Webhook.{ReviewRequest, Payload, verify_signature, parse_event}
use modulex.PrReview.Receiver.{Request, Handler, Answers, Response, deliver, serve_http}
use modulex.PrReview.Receiver.Deliveries.{
  IsAccepted, serve_http-IsAccepted, serve_each, replay-ignored, deliver_forgets,
}

-- The secret and the body, one after the other.
abbrev toy_hmac : List ℕ → List ℕ → List ℕ
toy_hmac secret body = secret ++ body

abbrev toy_hex : String → Option (List ℕ)
toy_hex s = some (if s == "0709" then 7 ∷ 9 ∷ [] else 7 ∷ 1 ∷ 2 ∷ [])

abbrev opened : Payload
opened = record {
  action = "opened";
  installation = 1;
  owner_login = "mediusfy";
  repository = "modulex";
  clone_url = "https://example.org/modulex.git";
  number = 7;
  head_sha = "decade";
  base_ref = "main";
}

abbrev toy_unmarshal : List ℕ → Option Payload
toy_unmarshal body = some opened

abbrev toy_key : List ℕ → String
toy_key body = if nat_eq (length body) 1 then "other" else "key"

abbrev receiver : Handler
receiver = record {
  secret = 7 ∷ [];
  dedup = [];
  dedup_ttl = 100;
  limiter = new_limiter 5 60;
  queue = [];
}

abbrev posted : Request
posted = record {
  method = "POST";
  body = some (1 ∷ 2 ∷ []);
  signature = "sha256=070102";
  delivery = "d-1";
  event = "pull_request";
}

-- The same body under another delivery id and event.
abbrev replayed : Request
replayed = record posted { delivery = "d-2"; event = "push" }

abbrev at_ten : Answers
at_ten = record { now = 10; seen_fails = false; enqueue_fails = false; forget_fails = false }

posted-accepted :
    (serve_http toy_hmac toy_hex toy_unmarshal toy_key posted at_ten receiver).1 ≡ Response.accepted
unfolding serve_http verify_signature parse_event seen allow
posted-accepted = refl

serve_http-IsAccepted_example :
    IsAccepted toy_hmac toy_hex toy_unmarshal toy_key posted at_ten receiver
      (serve_http toy_hmac toy_hex toy_unmarshal toy_key posted at_ten receiver).0
serve_http-IsAccepted_example =
    serve_http-IsAccepted toy_hmac toy_hex toy_unmarshal toy_key posted at_ten receiver
      posted-accepted

-- A delivery with another body.
abbrev unrelated : List (Request × Answers)
unrelated =
    (record posted { body = some (9 ∷ []); signature = "sha256=0709" }, record at_ten { now = 30 })
    ∷ []

replay-ignored_example :
    (serve_http toy_hmac toy_hex toy_unmarshal toy_key replayed
      (record at_ten { now = 50 })
      (serve_each toy_hmac toy_hex toy_unmarshal toy_key unrelated
        (serve_http toy_hmac toy_hex toy_unmarshal toy_key posted at_ten receiver).0)).0.queue
    ≡ (serve_each toy_hmac toy_hex toy_unmarshal toy_key unrelated
        (serve_http toy_hmac toy_hex toy_unmarshal toy_key posted at_ten receiver).0).queue
replay-ignored_example =
    replay-ignored toy_hmac toy_hex toy_unmarshal toy_key posted replayed at_ten
      (record at_ten { now = 50 }) unrelated receiver posted-accepted refl (omega arith, tt)
      (omega arith)

abbrev push : ReviewRequest
push = record {
  installation_id = 1;
  owner = "mediusfy";
  repo = "modulex";
  pr_number = 7;
  head_sha = "decade";
  base_ref = "main";
  clone_url = "https://example.org/modulex.git";
  delivery_id = "d-1";
}

abbrev queue_down : Answers
queue_down = record at_ten { enqueue_fails = true }

push-refused : (deliver "key" push queue_down receiver).1 ≡ Response.internal_error
unfolding deliver seen allow
push-refused = refl

deliver_forgets_example :
    (seen "key" 20 100 (deliver "key" push queue_down receiver).0.dedup).1 ≡ false
deliver_forgets_example =
    deliver_forgets "key" push queue_down receiver 20 100 refl refl push-refused
