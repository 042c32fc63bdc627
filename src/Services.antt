-- ===== src/Services.antt =====
-- The requests that a program makes through its guard or on its own, each with its answer.
pub mod Releases
pub mod Feedback
pub mod Marketplace
pub mod Activation
use banyan_hub_sdk.Errors.{invalid_server_response, Error, wrap, detail, Result, ◌>>=◌, map_err}
use banyan_hub_sdk.Errors.Api.{Bytes}

-- `json.Marshal`, the request, and `json.Unmarshal` of the answer.
module _ {A : Type 0} {B : Type 0} (marshal : A → Result Bytes) (unmarshal : Bytes → Result B) where
  abbrev pub decode_answer : (Error → Error) → Result Bytes → Result B
  decode_answer explain raw =
      map_err explain raw >>= λ r. map_err (detail invalid_server_response) (unmarshal r)

  abbrev pub exchange : (Error → Error) → (Bytes → Result Bytes) → A → Result B
  exchange explain send a =
      map_err (wrap "marshal request") (marshal a) >>= λ body. decode_answer explain (send body)
