-- ===== src/Errors/Laws.antt =====
-- What callers rely on when a request fails: which codes stop a running guard, that every API error
-- is an invalid response to `errors.Is`, and that a body is never cut silently.
use banyan_hub_sdk.Base.{
  Eq, string_eq, ◌==◌, contains, switch, length, length-take, ℕ, ◌+◌, ◌≤◌, String, ◌≡◌, refl, ◌↔◌,
  Bool, true, false, not, ◌&&◌, ◌||◌, Option, none, List, [], ◌∷◌, arith,
}
use banyan_hub_sdk.Base.Text.{is_empty}
use banyan_hub_sdk.Errors.{
  Sentinel, license_suspended, machine_banned, invalid_server_response, banned, sentinel_eq,
  ApiError, api, is, is_fatal_error, Result, ok, err, if-err-eq-ok,
}
use banyan_hub_sdk.Errors.Api.{
  Bytes, Body, read_limited, read_limited_body, Response, max_api_response_body_bytes,
  announces_more, finish_reading, read_api_json_response, ErrorFormat, or_else,
  decode_api_error_response,
}
use banyan_hub_sdk.Errors.Codes.{api_error_codes, sdk_error_for_api_error_code}

module _ {ℓ κ} {A : Type ℓ} {B : Type κ} ⦃e : Eq A⦄ (q : A → B → Bool) where
  abbrev each_key : List A → B → Bool
  each_key [] v = true
  each_key (k ∷ ks) v = q k v && each_key ks v

  abbrev each_case : List (List A × B) → Bool
  each_case [] = true
  each_case ((ks, v) ∷ cases) = each_key ks v && each_case cases

  each_key_sound :
      (key : A) (ks : List A) (v : B)
      → each_key ks v ≡ true
      → contains ks key ≡ true
      → q key v ≡ true
  each_key_sound key [] v h c = cc
  each_key_sound key (k ∷ ks) v h c = ground (arith, each_key_sound key ks v)

  -- A test that every case of a switch passes, and its default, holds of the result.
  pub switch_rule :
      (key : A) (cases : List (List A × B)) (d : B)
      → each_case cases ≡ true
      → q key d ≡ true
      → q key (switch key cases d) ≡ true
  unfolding switch
  switch_rule key [] d h k = k
  switch_rule key ((ks, v) ∷ cases) d h k =
      ground (arith, each_key_sound key ks v, switch_rule key cases d)

-- The codes on which a running guard is banned.
abbrev pub fatal_codes : List String
fatal_codes = "license_suspended" ∷ "machine_banned" ∷ "machine_invalid" ∷ []

abbrev fatal_cause : Sentinel → Bool
fatal_cause s = s == banned || s == license_suspended || s == machine_banned

abbrev fatal_is_listed : String → Sentinel → Bool
fatal_is_listed code s = not (fatal_cause s) || contains fatal_codes code

cases_fatal_is_listed : each_case fatal_is_listed api_error_codes ≡ true
unfolding string_eq sentinel_eq
cases_fatal_is_listed = refl

fatal_code_listed :
    (code : String) (status_code : ℕ)
    → fatal_cause (sdk_error_for_api_error_code code status_code) ≡ true
    → contains fatal_codes code ≡ true
unfolding sdk_error_for_api_error_code sentinel_eq
fatal_code_listed code status_code h = ground (
  arith,
  switch_rule fatal_is_listed code api_error_codes invalid_server_response cases_fatal_is_listed,
)

code_suspended : (n : ℕ) → sdk_error_for_api_error_code "license_suspended" n ≡ license_suspended
unfolding sdk_error_for_api_error_code switch string_eq
code_suspended n = refl

code_banned : (n : ℕ) → sdk_error_for_api_error_code "machine_banned" n ≡ machine_banned
unfolding sdk_error_for_api_error_code switch string_eq
code_banned n = refl

code_invalid : (n : ℕ) → sdk_error_for_api_error_code "machine_invalid" n ≡ machine_banned
unfolding sdk_error_for_api_error_code switch string_eq
code_invalid n = refl

listed_code_fatal :
    (code : String) (status_code : ℕ)
    → contains fatal_codes code ≡ true
    → fatal_cause (sdk_error_for_api_error_code code status_code) ≡ true
listed_code_fatal code status_code h =
    ground (arith, code_suspended status_code, code_banned status_code, code_invalid status_code)

fatal_by_cause :
    (n : ℕ) (c m : String) (s : Sentinel)
    → is_fatal_error (api (record { status_code = n; code = c; message = m; cause = s }))
      ≡ fatal_cause s
unfolding is_fatal_error sentinel_eq
fatal_by_cause n c m license_suspended = refl
fatal_by_cause n c m _ = refl

is_fatal_error-api : (a : ApiError) → is_fatal_error (api a) ≡ fatal_cause a.cause
is_fatal_error-api a = fatal_by_cause a.status_code a.code a.message a.cause

is_empty-or_else : (s t : String) → is_empty t ≡ false → is_empty (or_else s t) ≡ false
is_empty-or_else String.[] t h = h
is_empty-or_else (String.◌∷◌ c s) t h = refl

module _ (F : ErrorFormat) (status_code : ℕ) (body : Option Body) where
  abbrev decoded : ApiError
  decoded = decode_api_error_response F status_code body

  decoded_cause : decoded.cause ≡ sdk_error_for_api_error_code decoded.code status_code
  unfolding decode_api_error_response
  decoded_cause = refl

  -- An error response is fatal to a running guard exactly when the code that was read from it is
  -- one of the three fatal codes.
  pub is_fatal_error-decode :
      (is_fatal_error (api decoded) ≡ true) ↔ (contains fatal_codes decoded.code ≡ true)
  is_fatal_error-decode =
      rw (is_fatal_error-api decoded, decoded_cause)
        (fatal_code_listed decoded.code status_code, listed_code_fatal decoded.code status_code)

  -- Every error response is an invalid server response to `errors.Is`, and carries a code that is
  -- not empty.
  decode_is_invalid_response :
      (is (api decoded) invalid_server_response ≡ true) × (is_empty decoded.code ≡ false)
  unfolding is sentinel_eq decode_api_error_response
  decode_is_invalid_response = (refl, is_empty-or_else _ "request_failed" refl)

read_limited_body_whole :
    (limit : ℕ) (body : Body) {raw : Bytes}
    → read_limited_body limit body ≡ ok (raw, false)
    → (raw ≡ body.content) × (body.failure ≡ none) × (length raw ≤ limit)
unfolding read_limited_body read_limited
read_limited_body_whole limit body h = ground (arith, length-take (limit + 1) body.content)

read_limited_body_complete :
    (limit : ℕ) (body : Body)
    → body.failure ≡ none
    → length body.content ≤ limit
    → read_limited_body limit body ≡ ok (body.content, false)
unfolding read_limited_body read_limited
read_limited_body_complete limit body e h = ground (arith, length-take (limit + 1) body.content)

finish_reading_ok :
    (r : Result (Bytes × Bool)) {raw : Bytes} → finish_reading r ≡ ok raw → r ≡ ok (raw, false)
unfolding finish_reading
finish_reading_ok (err e) h = cc
finish_reading_ok (ok (raw, true)) h = cc
finish_reading_ok (ok (raw, false)) h = cc

-- A response of 2xx is read whole or refused. It gives `raw` exactly when `raw` is all of the body,
-- the body ended without an error, it is within the limit of 4 MiB, and its Content-Length, if
-- known, does not announce more than that.
pub read_api_json_response_iff :
    (resp : Response) (raw : Bytes)
    → (read_api_json_response resp ≡ ok raw) ↔ (
        (raw ≡ resp.body.content)
        × (resp.body.failure ≡ none)
        × (length resp.body.content ≤ max_api_response_body_bytes)
        × (announces_more resp.content_length max_api_response_body_bytes ≡ false))
unfolding read_api_json_response
read_api_json_response_iff resp raw = (there, back)
  where
    limit : ℕ
    limit = max_api_response_body_bytes

    there :
        read_api_json_response resp ≡ ok raw
        → (raw ≡ resp.body.content)
          × (resp.body.failure ≡ none)
          × (length resp.body.content ≤ max_api_response_body_bytes)
          × (announces_more resp.content_length max_api_response_body_bytes ≡ false)
    there h =
        let (small, read) =
          if-err-eq-ok (announces_more resp.content_length limit) _
            (finish_reading (read_limited_body limit resp.body)) h in
        let (same, ended, fits) =
          read_limited_body_whole limit resp.body (finish_reading_ok _ read) in
        (same, ended, rw (← same) fits, small)

    back :
        (raw ≡ resp.body.content)
          × (resp.body.failure ≡ none)
          × (length resp.body.content ≤ max_api_response_body_bytes)
          × (announces_more resp.content_length max_api_response_body_bytes ≡ false)
        → read_api_json_response resp ≡ ok raw
    back (same, ended, fits, small) =
        rw (small, read_limited_body_complete limit resp.body ended fits, same)
          (unfold finish_reading in refl)
