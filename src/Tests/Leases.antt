-- ===== src/Tests/Leases.antt =====
-- Leases, the store and the license check on the toy platform.
use banyan_hub_sdk.Base.{string_eq, ℕ, ◌≤◌, ◌≡◌, refl, ◌↔◌, ◌⊎◌, true, none, some, [], ◌∷◌}
use banyan_hub_sdk.Canonical.{marshal_canonical_raw, canonical_json}
use banyan_hub_sdk.Errors.{license_expired, network_error, Error, sentinel, text, detail, ok, err}
use banyan_hub_sdk.Files.{Faults, no_faults, rename_atomic, write_file_atomic}
use banyan_hub_sdk.Files.Laws.{
  Replaces, write_file_atomic-Replaces, write_file_atomic-windows_loses,
}
use banyan_hub_sdk.Guard.{verification_keys, check, lease_state_of}
use banyan_hub_sdk.License.{
  verify_ed25519_digest, check_watermark, check_lease, read_signed_lease, parse_and_verify_lease,
}
use banyan_hub_sdk.License.Laws.{IsAcceptable, IsSigned, parse_and_verify_lease_iff}
use banyan_hub_sdk.License.Online.{
  verify_online, validate_lease, validate_persisted_lease, verify_license,
}
use banyan_hub_sdk.License.Online.Laws.{
  Persisted, Fetched, verify_license_ok, verify_license_failed,
}
use banyan_hub_sdk.License.Online.Restored.{opened, unverified_lease_unlocks}
use banyan_hub_sdk.License.Watermark.{RefusesEmpty, raise_all, watermark_monotone}
use banyan_hub_sdk.Platform.{bytes_equal}
use banyan_hub_sdk.State.{on_verify_success}
use banyan_hub_sdk.Store.{
  Store, derive_state_key, sign_payload, verify_state_signature, decode_state_file, load,
  encode_state_file, save,
}
use banyan_hub_sdk.Store.Laws.{
  IsAuthentic, decode_state_file-IsAuthentic, Decodes, IsReplaceable, Saved, save-Saved, load-save,
}
use banyan_hub_sdk.Tests.Toy.{
  toy_parse_time, toy_lease, toy_state, toy_platform, toy, toy_identity, toy_settings, leased_store,
  written_store, leased_guard, blank_guard, offline_at,
}
use banyan_hub_sdk.Types.{PersistedState, active}
use banyan_hub_sdk.Updater.Frontend.Update.Stages.{held}

parse_and_verify_lease_iff_example :
    (parse_and_verify_lease toy (1 ∷ []) "sig" ((3 ∷ []) ∷ []) "m" 1_000_000_000_000 "2025"
      ≡ ok toy_lease)
    ↔ (IsSigned toy (1 ∷ []) "sig" ((3 ∷ []) ∷ []) toy_lease
        × IsAcceptable toy toy_lease "m" 1_000_000_000_000 "2025")
parse_and_verify_lease_iff_example =
    parse_and_verify_lease_iff toy (1 ∷ []) "sig" ((3 ∷ []) ∷ []) "m" 1_000_000_000_000 "2025"
      toy_lease

persisted_lease_passes :
    (verify_license toy toy_settings (offline_at 1_000_000_000_000) leased_guard).1 ≡ ok tt
unfolding verify_license validate_persisted_lease validate_lease verification_keys
    parse_and_verify_lease read_signed_lease canonical_json marshal_canonical_raw
    verify_ed25519_digest check_lease check_watermark string_eq lease_state_of on_verify_success
persisted_lease_passes = refl

verify_license_ok_example :
    ((verify_license toy toy_settings (offline_at 1_000_000_000_000) leased_guard).0.machine
      ≡ active)
    × (Persisted toy toy_settings
          (offline_at 1_000_000_000_000)
          leased_guard
          (verify_license toy toy_settings (offline_at 1_000_000_000_000) leased_guard).0
        ⊎ Fetched toy toy_settings
            (offline_at 1_000_000_000_000)
            leased_guard
            (verify_license toy toy_settings (offline_at 1_000_000_000_000) leased_guard).0)
verify_license_ok_example =
    verify_license_ok toy toy_settings (offline_at 1_000_000_000_000) leased_guard
      persisted_lease_passes

unreadable : Error
unreadable = detail network_error (text "unreadable")

no_lease_fails :
    (verify_license toy toy_settings (offline_at 1_000_000_000_000) blank_guard).1 ≡ err unreadable
unfolding verify_license validate_persisted_lease verify_online unreadable
no_lease_fails = refl

verify_license_failed_example :
    (verify_license toy toy_settings (offline_at 1_000_000_000_000) blank_guard).0.machine
    ≡ (validate_persisted_lease toy toy_settings (offline_at 1_000_000_000_000) blank_guard).0
verify_license_failed_example =
    verify_license_failed toy toy_settings (offline_at 1_000_000_000_000) blank_guard no_lease_fails

toy_refuses : RefusesEmpty toy
unfolding string_eq
toy_refuses = (text "cannot parse time", refl)

toy_2025 : toy_parse_time "2025" ≡ ok 900_000_000_000
unfolding string_eq
toy_2025 = refl

toy_2026 : toy_parse_time "2026" ≡ ok 1_000_000_000_000
unfolding string_eq
toy_2026 = refl

watermark_monotone_example :
    (r : ℕ) × (toy_parse_time (raise_all toy toy_refuses "2025" ("soon" ∷ "2026" ∷ [])) ≡ ok r)
    × (900_000_000_000 ≤ r)
watermark_monotone_example =
    watermark_monotone toy toy_refuses "2025" ("soon" ∷ "2026" ∷ []) toy_2025

toy_file_decodes : decode_state_file toy toy_identity (2 ∷ []) ≡ ok toy_state
unfolding decode_state_file verify_state_signature sign_payload derive_state_key bytes_equal
toy_file_decodes = refl

decode_state_file-IsAuthentic_example : IsAuthentic toy toy_identity (2 ∷ []) toy_state
decode_state_file-IsAuthentic_example =
    decode_state_file-IsAuthentic toy toy_identity (2 ∷ []) toy_file_decodes

toy_Decodes : (held : PersistedState) → Decodes (toy_platform held) held
toy_Decodes held = record {
  state-decodes = λ b h. refl;
  envelope-decodes = λ key payload b p h. cc;
  base64-decodes = λ key payload. refl;
}

leased_IsReplaceable : IsReplaceable leased_store
leased_IsReplaceable = record { not_windows = refl; no_temp = refl }

save-Saved_example :
    Saved toy toy_identity 7 toy_state leased_store leased_IsReplaceable
      (save toy toy_identity 7 toy_state leased_store)
save-Saved_example = save-Saved toy toy_identity 7 toy_state leased_store leased_IsReplaceable

toy_saves : (save toy toy_identity 7 toy_state leased_store).1 ≡ ok tt
unfolding save encode_state_file sign_payload derive_state_key write_file_atomic rename_atomic
toy_saves = refl

abbrev saved_store : Store
saved_store = (save toy toy_identity 7 toy_state leased_store).0

load-save_example :
    load toy toy_identity none saved_store
    ≡ (record saved_store { current = some toy_state }, ok toy_state)
load-save_example =
    load-save toy toy_identity 7 toy_state leased_store saved_store leased_IsReplaceable
      (toy_Decodes toy_state) toy_saves refl

denied : Faults
denied = record no_faults { rename = some (text "denied") }

write_file_atomic-Replaces_example :
    Replaces (1 ∷ []) (some (2 ∷ [])) none (write_file_atomic denied (1 ∷ []) written_store.files)
unfolding denied
write_file_atomic-Replaces_example =
    write_file_atomic-Replaces denied (1 ∷ []) written_store.files refl refl

twice_denied : Faults
twice_denied = record no_faults {
  windows = true;
  rename = some (text "denied");
  rename_again = some (text "denied again");
}

write_file_atomic-windows_loses_example :
    ((write_file_atomic twice_denied (1 ∷ []) written_store.files).1 ≡ some (text "denied again"))
    × ((write_file_atomic twice_denied (1 ∷ []) written_store.files).0.target ≡ none)
unfolding twice_denied
write_file_atomic-windows_loses_example =
    write_file_atomic-windows_loses twice_denied (1 ∷ []) written_store.files refl refl refl refl
      refl refl refl refl refl

toy_loads :
    load toy toy_identity none written_store
    ≡ (record written_store { current = some toy_state }, ok toy_state)
unfolding load decode_state_file verify_state_signature sign_payload derive_state_key bytes_equal
toy_loads = refl

lease_expired :
    validate_lease toy toy_settings (offline_at 3_000_000_000_000) toy_state
    ≡ err (sentinel license_expired)
unfolding validate_lease verification_keys parse_and_verify_lease read_signed_lease canonical_json
    marshal_canonical_raw verify_ed25519_digest check_lease check_watermark string_eq
lease_expired = refl

server_unreachable :
    verify_online toy toy_settings
      (offline_at 3_000_000_000_000)
      (opened toy toy_settings 7 7 none written_store)
    ≡ err unreadable
unfolding verify_online unreadable
server_unreachable = refl

unverified_lease_unlocks_example :
    (check (opened toy toy_settings 7 7 none written_store) ≡ ok tt)
    × ((verify_license toy toy_settings
          (offline_at 3_000_000_000_000)
          (opened toy toy_settings 7 7 none written_store)).1
        ≡ err unreadable)
    × (check
          (verify_license toy toy_settings
            (offline_at 3_000_000_000_000)
            (opened toy toy_settings 7 7 none written_store)).0
        ≡ ok tt)
unverified_lease_unlocks_example =
    unverified_lease_unlocks toy toy_settings 7 7 none written_store (offline_at 3_000_000_000_000)
      toy_loads refl refl refl lease_expired server_unreachable
