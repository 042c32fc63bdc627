-- ===== src/Http.antt =====
-- The requests of the SDK: `postJSON` and `getJSON` of guard.go, `marketplaceRequest` of marketplace.go.
pub mod Laws
pub mod Pinning
use banyan_hub_sdk.Base.{
  ltb, leb, if◌then◌else◌, String, ◌<>◌, ◌||◌, Option, none, some, List, [], ◌∷◌,
}
use banyan_hub_sdk.Config.Url.{server_url_for_path}
use banyan_hub_sdk.Errors.{
  network_error, invalid_server_response, Error, wrap, detail, api, Result, ok, err,
}
use banyan_hub_sdk.Errors.Api.{
  Bytes, Response, read_api_json_response, ErrorFormat, decode_api_error_response,
}

-- A request as the client gets it, with the two headers that the SDK sets.
pub record Request : Type 0 where
  pub method : String
  pub url : String
  pub payload : Option Bytes
  pub user_agent : String
  pub content_type : Option String

-- `http.NewRequestWithContext` of a method and a URL, whose `none` is success; the client's `Do`;
-- `url.Values.Encode`; the `Version` of the build; and what decodes an error response.
pub record Http : Type 0 where
  pub server_url : String
  pub new_request : String → String → Option Error
  pub do_request : Request → Result Response
  pub encode_query : List (String × String) → String
  pub version : String
  pub format : ErrorFormat

module _ (H : Http) where
  -- The end that the three functions share: a status of 2xx, then the bounded reading.
  unfoldable pub accept_answer : Response → Result Bytes
  accept_answer resp =
      if ltb resp.status_code 200 || leb 300 resp.status_code
      then err (api (decode_api_error_response H.format resp.status_code (some resp.body)))
      else elim (read_api_json_response resp) [
        | err e ↦ err (detail invalid_server_response e)
        | ok raw ↦ ok raw
      ]

  user_agent_of : String
  user_agent_of = "BanyanHub-SDK/" <> H.version

  url_with : String → List (String × String) → String
  url_with path [] = server_url_for_path H.server_url path
  url_with path (q ∷ query) =
      (server_url_for_path H.server_url path <> "?") <> H.encode_query (q ∷ query)

  create_failed : Error → Result Bytes
  create_failed e = err (wrap "create request" e)

  sent : Result Response → Result Bytes
  sent (err e) = err (wrap "send request" e)
  sent (ok resp) = accept_answer resp

  -- `postJSON`
  unfoldable pub post_json : String → Bytes → Result Bytes
  unfolding user_agent_of create_failed sent
  post_json path body =
      let url = server_url_for_path H.server_url path in
      elim (H.new_request "POST" url) [
        | some e ↦ create_failed e
        | none ↦ sent (
            H.do_request (record {
              method = "POST";
              url = url;
              payload = some body;
              user_agent = user_agent_of;
              content_type = some "application/json";
            }))
      ]

  -- `getJSON`
  unfoldable pub get_json : String → List (String × String) → Result Bytes
  unfolding user_agent_of create_failed sent url_with
  get_json path query = elim (H.new_request "GET" (url_with path query)) [
    | some e ↦ create_failed e
    | none ↦ sent (
        H.do_request (record {
          method = "GET";
          url = url_with path query;
          payload = none;
          user_agent = user_agent_of;
          content_type = none;
        }))
  ]

  content_type_of : Option Bytes → Option String
  content_type_of none = none
  content_type_of (some body) = some "application/json"

  reached : Result Response → Result Bytes
  reached (err e) = err (detail network_error e)
  reached (ok resp) = accept_answer resp

  -- `marketplaceRequest`; no data is a nil slice.
  unfoldable pub marketplace_request :
      String → String → List (String × String) → Option Bytes → Result Bytes
  unfolding user_agent_of create_failed reached url_with content_type_of
  marketplace_request method path query body = elim (H.new_request method (url_with path query)) [
    | some e ↦ create_failed e
    | none ↦ reached (
        H.do_request (record {
          method = method;
          url = url_with path query;
          payload = body;
          user_agent = user_agent_of;
          content_type = content_type_of body;
        }))
  ]

  -- `http.NewRequestWithContext` with its error as a result.
  unfoldable pub make_request : String → String → Result (Unit {0})
  make_request method url = elim (H.new_request method url) [ none ↦ ok tt | some e ↦ err e ]
