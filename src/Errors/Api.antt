-- ===== src/Errors/Api.antt =====
-- api_error.go and api_response.go: bounded reading of a body, and how a response that is not 2xx
-- becomes an `APIError`.
use banyan_hub_sdk.Base.{
  ltb, leb, if◌then◌else◌, string_eq, ◌==◌, length, take, ℕ, ◌+◌, ◌*◌, String, ◌<>◌, Bool, true,
  false, not, ◌&&◌, ◌||◌, Option, none, some, List, [], ◌∷◌,
}
use banyan_hub_sdk.Base.Text.{trim_space, is_empty}
use banyan_hub_sdk.Errors.{sentinel_eq, ApiError, Error, text, as_api, Result, ok, err}
use banyan_hub_sdk.Errors.Codes.{sdk_error_for_api_error_code}

-- A Go byte slice.
abbrev pub Bytes : Type 0
Bytes = List ℕ

-- A reader as what it will give: its bytes, then its end or an error, in a read of its own.
pub record Body : Type 0 where
  pub content : Bytes
  pub failure : Option Error

-- `io.ReadAll(io.LimitReader(body, limit))`
unfoldable pub read_limited : ℕ → Body → Bytes × Option Error
read_limited limit body =
    if leb limit (length body.content)
    then (take limit body.content, none)
    else (body.content, body.failure)

-- `readLimitedBody`: the bytes, and whether the body was too large.
unfoldable pub read_limited_body : ℕ → Body → Result (Bytes × Bool)
unfolding read_limited
read_limited_body max_bytes body =
    let (raw, failure) = read_limited (max_bytes + 1) body in
    elim failure [
      | some e ↦ err e
      | none ↦ if ltb max_bytes (length raw) then ok (take max_bytes raw, true) else ok (raw, false)
    ]

-- A response: `length` is its Content-Length, none if unknown (-1 in Go).
pub record Response : Type 0 where
  pub status_code : ℕ
  pub content_length : Option ℕ
  pub body : Body

abbrev pub max_api_response_body_bytes : ℕ
max_api_response_body_bytes = 4 * 1024 * 1024

abbrev pub announces_more : Option ℕ → ℕ → Bool
announces_more none limit = false
announces_more (some n) limit = ltb limit n

pub body_too_large : Error
body_too_large = text "response body exceeds 4194304 bytes"

unfoldable pub finish_reading : Result (Bytes × Bool) → Result Bytes
unfolding body_too_large
finish_reading (err e) = err e
finish_reading (ok (raw, true)) = err body_too_large
finish_reading (ok (raw, false)) = ok raw

-- `readAPIJSONResponse`
unfoldable pub read_api_json_response : Response → Result Bytes
read_api_json_response resp =
    if announces_more resp.content_length max_api_response_body_bytes
    then err body_too_large
    else finish_reading (read_limited_body max_api_response_body_bytes resp.body)

-- `errorEnvelope`
pub record ErrorEnvelope : Type 0 where
  pub error : String
  pub reason : String
  pub message : String

-- What the decoding of errors takes from Go's library: `string(raw)`, `http.StatusText`, the
-- printing of an error by `%v`, and what `json.Unmarshal` leaves in an empty envelope.
pub record ErrorFormat : Type 0 where
  pub text_of : Bytes → String
  pub status_text : ℕ → String
  pub print_error : Error → String
  pub unmarshal_envelope : Bytes → ErrorEnvelope

abbrev pub max_api_error_body_bytes : ℕ
max_api_error_body_bytes = 64 * 1024

-- `readAPIErrorBody`; `none` is a nil body.
unfoldable pub read_api_error_body : Option Body → Bytes × Bool × Option Error
unfolding read_limited
read_api_error_body none = ([], false, none)
read_api_error_body (some body) =
    let (raw, e) = read_limited (max_api_error_body_bytes + 1) body in
    if ltb max_api_error_body_bytes (length raw)
    then (take max_api_error_body_bytes raw, true, e)
    else (raw, false, e)

-- The first text that is not empty, as in `if x == "" { x = y }`.
abbrev pub or_else : String → String → String
or_else s t = if is_empty s then t else s

module _ (F : ErrorFormat) where
  -- `json.Unmarshal` is not called on an empty body.
  envelope_of : Bytes → ErrorEnvelope
  envelope_of [] = record { error = ""; reason = ""; message = "" }
  envelope_of (b ∷ raw) = F.unmarshal_envelope (b ∷ raw)

  with_read_error : String → Option Error → String
  with_read_error message none = message
  with_read_error message (some e) =
      message <> " [error body read failed: " <> F.print_error e <> "]"

  -- The message where the envelope has none: the body itself.
  body_message : Bytes → Bool → String
  body_message raw truncated =
      let message = trim_space (F.text_of raw) in
      if truncated && not (is_empty message) then message <> " [truncated]" else message

  -- `decodeAPIErrorResponse`
  unfoldable pub decode_api_error_response : ℕ → Option Body → ApiError
  unfolding read_api_error_body envelope_of with_read_error body_message
  decode_api_error_response status_code body =
      let (raw, truncated, e) = read_api_error_body body in
      let envelope = envelope_of raw in
      let code = or_else (or_else envelope.error envelope.reason) "request_failed" in
      let message =
        or_else (or_else envelope.message (body_message raw truncated))
          (F.status_text status_code) in
      record {
        status_code = status_code;
        code = code;
        message = with_read_error message e;
        cause = sdk_error_for_api_error_code code status_code;
      }

-- `IsAPIError`
unfoldable pub is_api_error : Error → String → Bool
unfolding as_api
is_api_error e code = elim (as_api e) [ none ↦ false | some a ↦ is_empty code || a.code == code ]

-- `IsMarketplaceError` of marketplace.go
unfoldable pub is_marketplace_error : Error → String → Bool
unfolding as_api
is_marketplace_error e code = elim (as_api e) [
  | none ↦ false
  | some a ↦ if is_empty code then true else a.code == code
]
