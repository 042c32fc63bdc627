-- ===== src/Services/Feedback/Laws.antt =====
-- What an upload of an attachment returns.
use banyan_hub_sdk.Base.{Bool-cases, String, ◌≡◌, refl, subst, inl, inr, false}
use banyan_hub_sdk.Base.Text.{is_empty}
use banyan_hub_sdk.Config.{Config}
use banyan_hub_sdk.Errors.{
  network_error, invalid_server_response, wrap, detail, Result, ok, map_err, ok-eq, chained,
  allowed,
}
use banyan_hub_sdk.Errors.Api.{Bytes, Response, or_else}
use banyan_hub_sdk.Http.{Http, make_request}
use banyan_hub_sdk.Services.{exchange}
use banyan_hub_sdk.Services.Feedback.{
  UploadUrlResponse, PrepareFeedbackUploadBody, upload_path, UploadForm, feedback_upload_url,
  prepare_feedback_upload, upload_feedback_file, upload_form, complete_upload, accept_upload,
  upload_to,
}

or_else-full : (s t : String) → is_empty t ≡ false → is_empty (or_else s t) ≡ false
or_else-full s t h = elim (Bool-cases (is_empty s)) [ inl e ↦ rw e h | inr e ↦ rw e e ]

module _ (H : Http) (cfg : Config) (machine_id : String)
    (marshal : PrepareFeedbackUploadBody → Result Bytes)
    (unmarshal : Bytes → Result UploadUrlResponse) where
  prepared :
      (file_name : String) (target : UploadUrlResponse)
      → prepare_feedback_upload H cfg machine_id marshal unmarshal file_name ≡ ok target
      → is_empty target.upload_url ≡ false
  unfolding prepare_feedback_upload
  prepared file_name target h =
      let (resp, got, same) = chained (exchange marshal unmarshal _ _ _) _ h in
      subst (λ t. is_empty t.upload_url ≡ false) (ok-eq same)
        (or_else-full resp.upload_url upload_path refl)

  -- The target of an upload, and what is returned of it: both name a file and a URL.
  pub record Uploaded (file_name : String) (r : UploadUrlResponse) : Type 0 where
    pub target : UploadUrlResponse
    pub announced : prepare_feedback_upload H cfg machine_id marshal unmarshal file_name ≡ ok target
    pub target_named : is_empty target.file_key ≡ false
    pub named : is_empty r.file_key ≡ false
    pub located : is_empty r.upload_url ≡ false

  module _ (send_form : String → UploadForm → Result Response) where
    completed :
        (file_name content_type : String) (target r : UploadUrlResponse)
        → prepare_feedback_upload H cfg machine_id marshal unmarshal file_name ≡ ok target
        → upload_to H cfg machine_id marshal unmarshal send_form file_name content_type target
          ≡ ok r
        → Uploaded file_name r
    unfolding upload_to complete_upload
    completed file_name content_type target r p h =
        let (full, h₁) = allowed (is_empty target.file_key) _ _ h in
        let url = feedback_upload_url H cfg machine_id target.upload_url in
        let (made, q, h₂) =
          chained (map_err (wrap "create upload request") (make_request H "POST" url)) _ h₁ in
        let form = upload_form H cfg machine_id marshal unmarshal target file_name content_type in
        let (resp, s, h₃) = chained (map_err (detail network_error) (send_form url form)) _ h₂ in
        let (raw, t, h₄) = chained (accept_upload H cfg machine_id marshal unmarshal resp) _ h₃ in
        let (answer, u, h₅) =
          chained (map_err (detail invalid_server_response) (unmarshal raw)) _ h₄ in
        subst (Uploaded file_name) (ok-eq h₅) (record {
          target = target;
          announced = p;
          target_named = full;
          named = or_else-full answer.file_key target.file_key full;
          located = or_else-full answer.upload_url target.upload_url (prepared file_name target p);
        })

    -- An upload that succeeds was announced by the server with a file key, and what it returns
    -- names a file key and a URL that are not empty, whatever the answer to the upload leaves out.
    pub upload_feedback_file-Uploaded :
        (file_name content_type : String) (r : UploadUrlResponse)
        → upload_feedback_file H cfg machine_id marshal unmarshal send_form file_name content_type
          ≡ ok r
        → Uploaded file_name r
    unfolding upload_feedback_file
    upload_feedback_file-Uploaded file_name content_type r h =
        let (target, p, h₁) =
          chained (prepare_feedback_upload H cfg machine_id marshal unmarshal file_name) _ h in
        completed file_name content_type target r p h₁
