-- ===== src/Errors/Codes.antt =====
-- The two tables of error codes that the server may send: `sdkErrorForAPIErrorCode` of api_error.go
-- and `mapVerifyError` of license.go.
use banyan_hub_sdk.Base.{leb, if◌then◌else◌, string_eq, switch, ℕ, String, List, [], ◌∷◌}
use banyan_hub_sdk.Errors.{
  Sentinel, invalid_request, license_invalid, license_expired, license_suspended, machine_banned,
  machine_not_registered, max_machines_exceeded, project_not_found, project_not_authorized,
  binary_not_recognized, timestamp_expired, nonce_reused, lease_revoked, update_frozen,
  invalid_server_response, not_found, missing_parameter, cdk_not_found, cdk_already_used,
  cdk_revoked, license_creation_failed, update_download, plugin_not_found, plugin_ota_disabled,
  component_not_found, upload_invalid, marketplace_incompatible, marketplace_install_required,
  marketplace_not_installed, marketplace_config_invalid, sentinel_eq, Error, sentinel, text, detail,
}

-- The cases of the `switch` in `sdkErrorForAPIErrorCode`, in its order.
abbrev pub api_error_codes : List (List String × Sentinel)
api_error_codes =
    (
      "license_not_found" ∷ "license_inactive" ∷ "license_invalid" ∷ "invalid_license_signature"
          ∷ "license_revoked" ∷ [],
      license_invalid,
    )
    ∷ ("invalid_request" ∷ [], invalid_request)
    ∷ ("internal_error" ∷ "server_misconfigured" ∷ [], invalid_server_response)
    ∷ ("version_not_found" ∷ "not_found" ∷ [], not_found)
    ∷ ("license_expired" ∷ [], license_expired)
    ∷ ("license_suspended" ∷ [], license_suspended)
    ∷ ("project_not_found" ∷ [], project_not_found)
    ∷ ("project_not_authorized" ∷ [], project_not_authorized)
    ∷ ("max_machines_exceeded" ∷ [], max_machines_exceeded)
    ∷ ("machine_banned" ∷ "machine_invalid" ∷ [], machine_banned)
    ∷ ("machine_not_registered" ∷ [], machine_not_registered)
    ∷ ("binary_not_recognized" ∷ [], binary_not_recognized)
    ∷ ("timestamp_expired" ∷ [], timestamp_expired)
    ∷ ("nonce_reused" ∷ [], nonce_reused)
    ∷ ("lease_revoked" ∷ [], lease_revoked)
    ∷ ("update_frozen" ∷ [], update_frozen)
    ∷ ("component_not_found" ∷ [], component_not_found)
    ∷ ("plugin_not_found" ∷ [], plugin_not_found)
    ∷ (
      "missing_params" ∷ "missing_plugin_slug" ∷ "missing_license_key" ∷ "missing_user_id"
          ∷ "missing_project_slug" ∷ "missing_slug" ∷ "missing_file_key" ∷ "missing_file" ∷ [],
      missing_parameter,
    )
    ∷ ("ota_disabled" ∷ [], plugin_ota_disabled)
    ∷ (
      "artifact_not_found" ∷ "artifact_missing" ∷ "artifact_missing_from_storage"
          ∷ "download_token_invalid_or_expired" ∷ [],
      update_download,
    )
    ∷ ("cdk_not_found" ∷ [], cdk_not_found)
    ∷ ("cdk_already_used" ∷ [], cdk_already_used)
    ∷ ("cdk_revoked" ∷ [], cdk_revoked)
    ∷ ("license_creation_failed" ∷ [], license_creation_failed)
    ∷ ("invalid_form_data" ∷ "invalid_file_key" ∷ [], upload_invalid)
    ∷ ("incompatible_platform" ∷ [], marketplace_incompatible)
    ∷ ("install_required" ∷ [], marketplace_install_required)
    ∷ ("not_installed" ∷ [], marketplace_not_installed)
    ∷ ("config_validation_failed" ∷ [], marketplace_config_invalid)
    ∷ []

-- Both branches of the default case return `ErrInvalidServerResponse`.
unfoldable pub sdk_error_for_api_error_code : String → ℕ → Sentinel
sdk_error_for_api_error_code code status_code =
    switch code api_error_codes
      (if leb 500 status_code then invalid_server_response else invalid_server_response)

-- The cases of the `switch` in `mapVerifyError` of license.go.
abbrev pub verify_error_codes : List (List String × Error)
verify_error_codes =
    ("license_not_found" ∷ "license_inactive" ∷ [], sentinel license_invalid)
    ∷ ("license_expired" ∷ [], sentinel license_expired)
    ∷ ("project_not_authorized" ∷ [], sentinel project_not_authorized)
    ∷ ("max_machines_exceeded" ∷ [], sentinel max_machines_exceeded)
    ∷ ("machine_banned" ∷ [], sentinel machine_banned)
    ∷ ("binary_not_recognized" ∷ [], sentinel binary_not_recognized)
    ∷ []

-- `mapVerifyError`
unfoldable pub map_verify_error : String → Error
map_verify_error code = switch code verify_error_codes (detail license_invalid (text code))
