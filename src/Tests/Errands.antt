-- ===== src/Tests/Errands.antt =====
-- Errors, defaults and updates on concrete input.
use banyan_hub_sdk.Base.{
  ltb, if◌then◌else◌, string_eq, ◌==◌, contains, ℕ, ◌≤◌, String, ◌≡◌, refl, ◌↔◌, Bool, true, false,
  Option, none, some, List, [], ◌∷◌,
}
use banyan_hub_sdk.Base.Text.{trim_space, has_prefix, trim_prefix}
use banyan_hub_sdk.Canonical.{string_gt, sort_values}
use banyan_hub_sdk.Canonical.Sorting.{IsSorted, sort_values_lem}
use banyan_hub_sdk.Errors.{
  update_apply, update_rollback, update_concurrent, sentinel_eq, Error, sentinel, text, detail, api,
  is, is_fatal_error, Result, ok, err,
}
use banyan_hub_sdk.Errors.Api.{
  Bytes, Body, Response, max_api_response_body_bytes, announces_more, read_api_json_response,
  ErrorFormat, decode_api_error_response,
}
use banyan_hub_sdk.Errors.Laws.{fatal_codes, is_fatal_error-decode, read_api_json_response_iff}
use banyan_hub_sdk.License.{verify_ed25519_digest}
use banyan_hub_sdk.Tests.Toy.{toy}
use banyan_hub_sdk.Types.{state_eq}
use banyan_hub_sdk.Updater.{
  Callbacks, Updates, own, current_version, BinaryEnv, verify_artifact_signature, verify_artifact,
  after_apply, after_verify, after_download, after_request, locked_update, unlock, try_lock_update,
  update_binary_component,
}
use banyan_hub_sdk.Updater.Laws.{
  Updated, update_binary_component-Updated, update_binary_component-rollback,
}
use banyan_hub_sdk.Updater.Version.{Semver, read_version, is_strictly_newer_version}
use mathlib.Core.List.{Permᴰ}

abbrev toy_format : ErrorFormat
toy_format = record {
  text_of = λ b. "forbidden";
  status_text = λ n. "Forbidden";
  print_error = λ e. "error";
  unmarshal_envelope = λ b. record { error = "machine_banned"; reason = ""; message = "" };
}

abbrev toy_body : Body
toy_body = record { content = 1 ∷ []; failure = none }

is_fatal_error-decode_example :
    (is_fatal_error (api (decode_api_error_response toy_format 403 (some toy_body))) ≡ true)
    ↔ (contains fatal_codes (decode_api_error_response toy_format 403 (some toy_body)).code ≡ true)
is_fatal_error-decode_example = is_fatal_error-decode toy_format 403 (some toy_body)

abbrev toy_response : Response
toy_response = record { status_code = 200; content_length = some 1; body = toy_body }

read_api_json_response_iff_example : (read_api_json_response toy_response ≡ ok (1 ∷ [])) ↔ (
    (Path Bytes (1 ∷ []) (1 ∷ []))
    × (Path (Option Error) none none)
    × (1 ≤ max_api_response_body_bytes)
    × (announces_more (some 1) max_api_response_body_bytes ≡ false))
read_api_json_response_iff_example = read_api_json_response_iff toy_response (1 ∷ [])

number_of : String → Result ℕ
number_of s =
    if s == "1" then ok 1 else if s == "2" then ok 2 else err (text "invalid semantic version")

abbrev toy_semver : Semver
toy_semver = record { Version = ℕ; new_version = number_of; greater_than = λ a b. ltb b a }

abbrev all_callbacks : Callbacks
all_callbacks = record { on_progress = true; on_result = true; on_failure = true }

abbrev good_artifact : BinaryEnv
good_artifact = record {
  request_meta = ok (record { url = "u"; sha256 = "h"; signature = "sig" });
  download = λ url. ok "h";
  apply_binary = ok tt;
}

-- The replacement of the binary fails, and so does the way back.
abbrev lost_binary : BinaryEnv
lost_binary = record good_artifact { apply_binary = err (sentinel update_rollback) }

abbrev at_first : Updates
at_first = record { version = "1"; managed_versions = []; locked = false; events = [] }

abbrev keys : List Bytes
keys = (3 ∷ []) ∷ []

abbrev newer : String → String → Bool
newer = is_strictly_newer_version toy_semver

update_binary_component-Updated_example :
    Updated all_callbacks toy keys newer good_artifact "c" own "2" at_first
      (update_binary_component all_callbacks toy keys newer good_artifact "c" own "2" at_first)
    × ((update_binary_component all_callbacks toy keys newer good_artifact "c" own "2"
          at_first).0.locked
        ≡ false)
    × (false ≡ true
        → (update_binary_component all_callbacks toy keys newer good_artifact "c" own "2"
            at_first).1
          ≡ err (sentinel update_concurrent))
update_binary_component-Updated_example =
    update_binary_component-Updated all_callbacks toy keys newer good_artifact "c" own "2" at_first

lost_binary_fails :
    (update_binary_component all_callbacks toy keys newer lost_binary "c" own "2" at_first).1
    ≡ err (detail update_apply (sentinel update_rollback))
unfolding update_binary_component try_lock_update unlock locked_update after_request after_download
    after_verify verify_artifact after_apply current_version is_strictly_newer_version read_version
    number_of string_eq verify_artifact_signature verify_ed25519_digest trim_space trim_prefix
    has_prefix
lost_binary_fails = refl

update_binary_component-rollback_example :
    is (detail update_apply (sentinel update_rollback)) update_rollback ≡ false
update_binary_component-rollback_example =
    update_binary_component-rollback all_callbacks toy keys newer lost_binary "c" own "2" at_first
      (detail update_apply (sentinel update_rollback)) lost_binary_fails

sort_values_lem_example :
    IsSorted string_gt (sort_values string_gt ("b" ∷ "a" ∷ "c" ∷ []))
    × Permᴰ (sort_values string_gt ("b" ∷ "a" ∷ "c" ∷ [])) ("b" ∷ "a" ∷ "c" ∷ [])
sort_values_lem_example = sort_values_lem ("b" ∷ "a" ∷ "c" ∷ [])
