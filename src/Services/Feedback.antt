-- ===== src/Services/Feedback.antt =====
-- feedback.go.
pub mod Laws
use banyan_hub_sdk.Base.{nat_eq, if◌then◌else◌, String, not, Option, none, some, List, [], ◌∷◌, map}
use banyan_hub_sdk.Base.Text.{is_empty}
use banyan_hub_sdk.Config.{Config}
use banyan_hub_sdk.Config.Url.{server_url_for_path}
use banyan_hub_sdk.Errors.{
  network_error, invalid_server_response, sentinel, wrap, detail, api, Result, ok, err, ◌>>=◌, ◌>>◌,
  refuse_if, map_err,
}
use banyan_hub_sdk.Errors.Api.{
  Bytes, Response, read_api_json_response, or_else, decode_api_error_response,
}
use banyan_hub_sdk.Http.{Http, post_json, get_json, make_request}
use banyan_hub_sdk.Services.{exchange}
use banyan_hub_sdk.Updater.Limit.{Answer}

-- `SubmitFeedbackRequest`, with its attachments as the caller gave them.
pub record SubmitFeedbackRequest (Attachment : Type 0) : Type 0 where
  pub user_id : String
  pub user_name : String
  pub user_email : String
  pub category : String
  pub title : String
  pub content : String
  pub app_version : String
  pub attachments : List Attachment

-- `submitFeedbackBody`
pub record SubmitFeedbackBody (Attachment : Type 0) : Type 0 where
  pub license_key : String
  pub machine_id : String
  pub project_slug : String
  pub request : SubmitFeedbackRequest Attachment

-- `UploadURLResponse` and `prepareFeedbackUploadBody`
pub record UploadUrlResponse : Type 0 where
  pub upload_url : String
  pub file_key : String

pub record PrepareFeedbackUploadBody : Type 0 where
  pub license_key : String
  pub project_slug : String
  pub file_name : String

abbrev pub upload_path : String
upload_path = "/api/v1/feedbacks/upload"

-- The parts of an upload: its fields in order, and the name of the file that follows them.
pub record UploadForm : Type 0 where
  pub fields : List (String × String)
  pub file_name : String

module _ (H : Http) (cfg : Config) (machine_id : String) where
  -- `SubmitFeedback`
  unfoldable pub submit_feedback :
      {Attachment Item : Type 0}
      → (SubmitFeedbackBody Attachment → Result Bytes)
      → (Bytes → Result Item)
      → SubmitFeedbackRequest Attachment
      → Result Item
  submit_feedback marshal unmarshal request =
      exchange marshal unmarshal (wrap "submit feedback") (post_json H "/api/v1/feedbacks")
        (record {
          license_key = cfg.license_key;
          machine_id = machine_id;
          project_slug = cfg.project_slug;
          request = request;
        })

  -- `ListMyFeedback`; the page and its size as `strconv.Itoa` prints them.
  unfoldable pub list_my_feedback :
      {Answer : Type 0} → (Bytes → Result Answer) → String → String → String → Result Answer
  list_my_feedback unmarshal user_id page page_size =
      map_err (wrap "list feedback") (
        get_json H "/api/v1/feedbacks" (
          ("license_key", cfg.license_key)
          ∷ ("project_slug", cfg.project_slug)
          ∷ ("user_id", user_id)
          ∷ ("page", page)
          ∷ ("page_size", page_size)
          ∷ []))
      >>= λ raw. map_err (detail invalid_server_response) (unmarshal raw)

  -- `feedbackUploadURL`
  unfoldable pub feedback_upload_url : String → String
  feedback_upload_url upload_url =
      server_url_for_path cfg.server_url (or_else upload_url upload_path)

  module _ (marshal : PrepareFeedbackUploadBody → Result Bytes)
      (unmarshal : Bytes → Result UploadUrlResponse) where
    -- `prepareFeedbackUpload`
    unfoldable pub prepare_feedback_upload : String → Result UploadUrlResponse
    prepare_feedback_upload file_name =
        exchange marshal unmarshal (wrap "prepare feedback upload")
          (post_json H "/api/v1/feedbacks/upload-url")
          (record {
            license_key = cfg.license_key;
            project_slug = cfg.project_slug;
            file_name = file_name;
          })
        >>= λ resp. ok (record resp { upload_url = or_else resp.upload_url upload_path })

    upload_form : UploadUrlResponse → String → String → UploadForm
    upload_form target file_name content_type = record {
      fields =
          ("license_key", cfg.license_key)
          ∷ ("project_slug", cfg.project_slug)
          ∷ ("file_key", target.file_key)
          ∷ (if not (is_empty content_type) then ("content_type", content_type) ∷ [] else []);
      file_name = file_name;
    }

    complete_upload : UploadUrlResponse → UploadUrlResponse → UploadUrlResponse
    complete_upload target answer = record {
      upload_url = or_else answer.upload_url target.upload_url;
      file_key = or_else answer.file_key target.file_key;
    }

    accept_upload : Response → Result Bytes
    accept_upload resp =
        if not (nat_eq resp.status_code 200)
        then err (api (decode_api_error_response H.format resp.status_code (some resp.body)))
        else map_err (detail invalid_server_response) (read_api_json_response resp)

    -- `UploadFeedbackFile`; `send_form` is the client's `Do` of a form, in which a failed reading of
    -- the file ends the body with an error.
    module _ (send_form : String → UploadForm → Result Response) where
      upload_to : String → String → UploadUrlResponse → Result UploadUrlResponse
      unfolding upload_form complete_upload accept_upload
      upload_to file_name content_type target = do
        refuse_if (is_empty target.file_key) (sentinel invalid_server_response)
        map_err (wrap "create upload request")
            (make_request H "POST" (feedback_upload_url target.upload_url))
        resp ← map_err (detail network_error) (
            send_form (feedback_upload_url target.upload_url)
              (upload_form target file_name content_type))
        raw ← accept_upload resp
        answer ← map_err (detail invalid_server_response) (unmarshal raw)
        ok (complete_upload target answer)

      unfoldable pub upload_feedback_file : String → String → Result UploadUrlResponse
      unfolding upload_to
      upload_feedback_file file_name content_type =
          prepare_feedback_upload file_name >>= upload_to file_name content_type

-- `ReleaseNoteEntry`, with `ResolvedFeedback` as a parameter; `releaseNotesWireItem` and
-- `releaseNotesWireResponse`
pub record ReleaseNoteEntry (Item : Type 0) : Type 0 where
  pub component_slug : String
  pub version : String
  pub release_notes : String
  pub resolved_feedbacks : List Item
  pub created_at : String

pub record ReleaseNotesWireItem (Item : Type 0) : Type 0 where
  pub component_slug : String
  pub version : String
  pub release_notes : Option String
  pub resolved_feedbacks : List Item
  pub feedbacks : List Item
  pub created_at : String

pub record ReleaseNotesWireResponse (Item : Type 0) : Type 0 where
  pub entries : List (ReleaseNoteEntry Item)
  pub releases : List (ReleaseNotesWireItem Item)

or_no_text : Option String → String
or_no_text none = ""
or_no_text (some s) = s

module _ {Item : Type 0} where
  or_list : List Item → List Item → List Item
  or_list [] other = other
  or_list (x ∷ xs) other = x ∷ xs

  entry_of : ReleaseNotesWireItem Item → ReleaseNoteEntry Item
  unfolding or_list or_no_text
  entry_of release = record {
    component_slug = release.component_slug;
    version = release.version;
    release_notes = or_no_text release.release_notes;
    resolved_feedbacks = or_list release.resolved_feedbacks release.feedbacks;
    created_at = release.created_at;
  }

  abbrev entries_of :
      List (ReleaseNoteEntry Item) → List (ReleaseNotesWireItem Item) → List (ReleaseNoteEntry Item)
  entries_of (e ∷ entries) releases = e ∷ entries
  entries_of [] [] = []
  entries_of [] (r ∷ releases) = map entry_of (r ∷ releases)

  -- `toSDKResponse`
  unfoldable pub to_sdk_response : ReleaseNotesWireResponse Item → List (ReleaseNoteEntry Item)
  unfolding entry_of
  to_sdk_response r = entries_of r.entries r.releases

  -- `FetchReleaseNotes`
  unfoldable pub fetch_release_notes :
      Http
      → Config
      → (Bytes → Result (ReleaseNotesWireResponse Item))
      → Result (List (ReleaseNoteEntry Item))
  unfolding to_sdk_response
  fetch_release_notes H cfg unmarshal =
      map_err (wrap "fetch release notes") (
        get_json H "/api/v1/feedbacks/release-notes"
          (("license_key", cfg.license_key) ∷ ("project_slug", cfg.project_slug) ∷ []))
      >>= λ raw. map_err (detail invalid_server_response) (unmarshal raw) >>= λ wire.
          ok (to_sdk_response wire)
