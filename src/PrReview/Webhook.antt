-- ===== src/PrReview/Webhook.antt =====
-- The webhook of pull requests (services/prreview/webhook/webhook.go). The hash, the hexadecimal codec
-- and the JSON codec of Go are parameters. A body is its bytes.
use modulex.Prelude.{
  cut_prefix, ℕ, String, Bool, true, false, ◌&&◌, ◌||◌, ◌==◌, if◌then◌else◌, nat_eq, Option, none,
  some, List, [], ◌∷◌,
}

-- webhook.ReviewRequest
pub record ReviewRequest : Type 0 where
  pub installation_id : ℕ
  pub owner : String
  pub repo : String
  pub pr_number : ℕ
  pub head_sha : String
  pub base_ref : String
  pub clone_url : String
  pub delivery_id : String

-- The payload of a pull_request event.
pub record Payload : Type 0 where
  pub action : String
  pub installation : ℕ
  pub owner_login : String
  pub repository : String
  pub clone_url : String
  pub number : ℕ
  pub head_sha : String
  pub base_ref : String

-- `hmac.Equal`
unfoldable pub bytes_eq : List ℕ → List ℕ → Bool
bytes_eq [] [] = true
bytes_eq [] (y ∷ ys) = false
bytes_eq (x ∷ xs) [] = false
bytes_eq (x ∷ xs) (y ∷ ys) = nat_eq x y && bytes_eq xs ys

-- What ParsePullRequestEvent ends with besides a request.
pub data ParseError : Type 0 where
  ignored unparseable no_installation no_repository no_pull_request : ParseError

pub data Parsed : Type 0 where
  request : ReviewRequest → Parsed
  not_request : ParseError → Parsed

-- reviewedActions
abbrev pub is_reviewed_action : String → Bool
is_reviewed_action a = a == "opened" || a == "synchronize" || a == "reopened"

abbrev pub request_of : String → Payload → ReviewRequest
request_of delivery p = record {
  installation_id = p.installation;
  owner = p.owner_login;
  repo = p.repository;
  pr_number = p.number;
  head_sha = p.head_sha;
  base_ref = p.base_ref;
  clone_url = p.clone_url;
  delivery_id = delivery;
}

-- The `switch` on the fields of the request.
abbrev pub check_request : ReviewRequest → Parsed
check_request r =
    if nat_eq r.installation_id 0
    then not_request ParseError.no_installation
    else if r.owner == "" || r.repo == "" || r.clone_url == ""
    then not_request ParseError.no_repository
    else if nat_eq r.pr_number 0 || r.head_sha == "" || r.base_ref == ""
    then not_request ParseError.no_pull_request
    else request r

abbrev pub parse_payload : String → Option Payload → Parsed
parse_payload delivery none = not_request ParseError.unparseable
parse_payload delivery (some p) =
    if is_reviewed_action p.action
    then check_request (request_of delivery p)
    else not_request ParseError.ignored

module _ (hmac : List ℕ → List ℕ → List ℕ) (hex_decode : String → Option (List ℕ)) where
  -- VerifySignature: whether it returns nil.
  unfoldable pub verify_signature : List ℕ → List ℕ → String → Bool
  unfolding cut_prefix bytes_eq
  verify_signature secret body header = elim (cut_prefix "sha256=" header) [
    | none ↦ false
    | some digits ↦ elim (hex_decode digits) [
      | none ↦ false
      | some got ↦ bytes_eq (hmac secret body) got
    ]
  ]

-- ParsePullRequestEvent
unfoldable pub parse_event : (List ℕ → Option Payload) → String → String → List ℕ → Parsed
parse_event unmarshal event delivery body =
    if event == "pull_request"
    then parse_payload delivery (unmarshal body)
    else not_request ParseError.ignored
