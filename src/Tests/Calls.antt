-- ===== src/Tests/Calls.antt =====
-- An upload and an activation on concrete input.
use banyan_hub_sdk.Base.{String, ◌≡◌, refl, false, none, [], ◌∷◌}
use banyan_hub_sdk.Errors.{Result, ok}
use banyan_hub_sdk.Errors.Api.{
  Bytes, read_limited_body, Response, finish_reading, read_api_json_response,
}
use banyan_hub_sdk.Http.{Http, accept_answer, post_json, make_request}
use banyan_hub_sdk.Services.Activation.{ActivationOptions, ActivationResult, ActivationEnv}
use banyan_hub_sdk.Services.Feedback.{
  UploadUrlResponse, PrepareFeedbackUploadBody, UploadForm, prepare_feedback_upload,
  upload_feedback_file,
}
use banyan_hub_sdk.Services.Feedback.Laws.{Uploaded, upload_feedback_file-Uploaded}
use banyan_hub_sdk.Tests.Requests.{pinned_config}

abbrev answering_http : Http
answering_http = record {
  server_url = "https://localhost";
  new_request = λ method url. none;
  do_request = λ r. ok (record {
    status_code = 200;
    content_length = none;
    body = record { content = 1 ∷ []; failure = none };
  });
  encode_query = λ q. "q";
  version = "1";
  format = record {
    text_of = λ b. "";
    status_text = λ n. "";
    print_error = λ e. "error";
    unmarshal_envelope = λ b. record { error = ""; reason = ""; message = "" };
  };
}

abbrev upload_target : UploadUrlResponse
upload_target = record { upload_url = ""; file_key = "key" }

abbrev encode_prepare : PrepareFeedbackUploadBody → Result Bytes
encode_prepare b = ok (2 ∷ [])

abbrev decode_target : Bytes → Result UploadUrlResponse
decode_target b = ok upload_target

abbrev send_toy_form : String → UploadForm → Result Response
send_toy_form url form = ok (record {
  status_code = 200;
  content_length = none;
  body = record { content = 1 ∷ []; failure = none };
})

abbrev upload_answer : UploadUrlResponse
upload_answer = record { upload_url = "/api/v1/feedbacks/upload"; file_key = "key" }

uploads :
    upload_feedback_file answering_http pinned_config "m" encode_prepare decode_target send_toy_form
      "a.png" "image/png"
    ≡ ok upload_answer
unfolding upload_feedback_file prepare_feedback_upload post_json accept_answer
    read_api_json_response read_limited_body finish_reading make_request
uploads = refl

upload_feedback_file-Uploaded_example :
    Uploaded answering_http pinned_config "m" encode_prepare decode_target "a.png" upload_answer
upload_feedback_file-Uploaded_example =
    upload_feedback_file-Uploaded answering_http pinned_config "m" encode_prepare decode_target
      send_toy_form "a.png" "image/png" upload_answer uploads

abbrev toy_activation : ActivationEnv
toy_activation = record {
  parse_url = λ s. ok (record {
    scheme = "https";
    host = "localhost";
    raw_query = "";
    fragment = "";
    printed = "https://localhost/";
  });
  connect = λ c timeout r. ok (record {
    status_code = 200;
    content_length = none;
    body = record { content = 1 ∷ []; failure = none };
  });
  marshal = λ payload. ok (2 ∷ []);
  unmarshal = λ b. ok (record { license_key = "K"; project_slug = "p"; expires_at = "2030" });
}

abbrev toy_options : ActivationOptions
toy_options = record {
  server_url = "";
  code = "code";
  organization = "org";
  email = "";
  timeout = 0;
  http_client = none;
  allow_system_trust = false;
  pinned_spki_hashes = "pin" ∷ [];
  user_agent = "";
}

abbrev toy_license : ActivationResult
toy_license = record { license_key = "K"; project_slug = "p"; expires_at = "2030" }
