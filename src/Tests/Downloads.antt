-- ===== src/Tests/Downloads.antt =====
-- Downloads through the limit reader: two pieces under the limit, and over it.
use banyan_hub_sdk.Base.{
  string_eq, String, ◌≡◌, refl, ◌↔◌, Bool, true, false, none, some, List, [], ◌∷◌, arith,
}
use banyan_hub_sdk.Errors.{ok, err}
use banyan_hub_sdk.Errors.Api.{Bytes}
use banyan_hub_sdk.License.{verify_ed25519_digest}
use banyan_hub_sdk.Tests.Toy.{toy}
use banyan_hub_sdk.Updater.{
  Callbacks, Updates, own, current_version, set_version, verify_artifact_signature, verify_artifact,
  after_apply, after_verify, after_download, after_request, locked_update, unlock, try_lock_update,
  update_binary_component,
}
use banyan_hub_sdk.Updater.Delivery.{
  SelfUpdate, apply_backend_binary, Delivery, delivered_env, IsGenuineBinary,
  update_binary_component-IsGenuineBinary,
}
use banyan_hub_sdk.Updater.Download.{
  Download, finish_copy, copy_to_temp, receive_artifact, download_artifact, IsWhole,
  download_artifact_iff,
}
use banyan_hub_sdk.Updater.Limit.{
  normalize_artifact_max_bytes, artifact_too_large_error, Pieces, read_piece, after_probe,
  after_read, read, prepend, at_end, resume, copy, copy_artifact,
}
use banyan_hub_sdk.Updater.Limit.Laws.{copied, copy_artifact_lem}
use banyan_hub_sdk.Updater.Versions.{Same}

abbrev two_pieces : Pieces
two_pieces = record { pieces = (1 ∷ 2 ∷ 3 ∷ []) ∷ (4 ∷ []) ∷ []; failure = none }

abbrev whole_download : Download
whole_download = record {
  create_request = none;
  send = none;
  status_code = 200;
  content_length = none;
  body = two_pieces;
  create_temp = none;
  write_temp = none;
}

fits_exactly : copy_artifact 2 4 two_pieces ≡ some (ok (1 ∷ 2 ∷ 3 ∷ 4 ∷ []))
unfolding copy_artifact copy resume read read_piece after_probe after_read prepend at_end
    normalize_artifact_max_bytes
fits_exactly = refl

one_byte_over : copy_artifact 2 3 two_pieces ≡ some (err artifact_too_large_error)
unfolding copy_artifact copy resume read read_piece after_probe after_read prepend at_end
    normalize_artifact_max_bytes
one_byte_over = refl

copy_artifact_lem_example :
    copy_artifact 2 3 two_pieces
    ≡ some (copied none (normalize_artifact_max_bytes 3) (1 ∷ 2 ∷ 3 ∷ 4 ∷ []))
copy_artifact_lem_example = copy_artifact_lem 2 3 two_pieces (omega arith)

download_artifact_iff_example :
    (download_artifact toy 2 4 whole_download ≡ some (ok (1 ∷ 2 ∷ 3 ∷ 4 ∷ [], "hex")))
    ↔ IsWhole toy (normalize_artifact_max_bytes 4) whole_download (1 ∷ 2 ∷ 3 ∷ 4 ∷ []) "hex"
download_artifact_iff_example =
    download_artifact_iff toy 2 4 whole_download (omega arith) (1 ∷ 2 ∷ 3 ∷ 4 ∷ []) "hex"

abbrev delivery : Delivery
delivery = record {
  announced = ok (record { url = "u"; sha256 = "hex"; signature = "sig" });
  served = λ url. whole_download;
  size = 2;
  max_bytes = 4;
}

abbrev replacing : SelfUpdate
replacing = record { open_temp = none; apply = λ content. ok tt; rollback_error = λ e. none }

abbrev no_callbacks : Callbacks
no_callbacks = record { on_progress = false; on_result = false; on_failure = false }

abbrev at_one : Updates
at_one = record { version = "1"; managed_versions = []; locked = false; events = [] }

abbrev one_key : List Bytes
one_key = (3 ∷ []) ∷ []

abbrev always : String → String → Bool
always a b = true

delivered :
    (update_binary_component no_callbacks toy one_key always
      (delivered_env toy delivery replacing)
      "c"
      own
      "2"
      at_one).1
    ≡ ok tt
unfolding update_binary_component try_lock_update unlock locked_update after_request after_download
    after_verify verify_artifact after_apply current_version string_eq verify_artifact_signature
    verify_ed25519_digest delivered_env apply_backend_binary download_artifact receive_artifact
    copy_to_temp finish_copy copy_artifact copy resume read read_piece after_probe after_read
    prepend at_end normalize_artifact_max_bytes
delivered = refl

update_binary_component-IsGenuineBinary_example :
    IsGenuineBinary toy delivery replacing one_key
    × (always "1" "2" ≡ true)
    × Same
        (update_binary_component no_callbacks toy one_key always
          (delivered_env toy delivery replacing)
          "c"
          own
          "2"
          at_one).0
        (set_version own "2" at_one)
update_binary_component-IsGenuineBinary_example =
    update_binary_component-IsGenuineBinary toy delivery replacing no_callbacks one_key always "c"
      own "2" (omega arith) at_one delivered
