-- ===== src/Http/Laws.antt =====
-- The three functions that send requests, compared.
use banyan_hub_sdk.Base.{String, ◌≡◌, refl, ◌⊎◌, inl, inr, Option, none, some, List, []}
use banyan_hub_sdk.Config.Url.{server_url_for_path}
use banyan_hub_sdk.Errors.{network_error, Error, wrap, detail, Result, ok, err}
use banyan_hub_sdk.Errors.Api.{Bytes, Response}
use banyan_hub_sdk.Http.{
  Http, post_json, get_json, marketplace_request, url_with, create_failed, sent, content_type_of,
  reached,
}

-- The same result, or the same failure to send, under the two errors.
abbrev pub SameAnswer : Result Bytes → Result Bytes → Type 0
SameAnswer a b =
    (a ≡ b) ⊎ ((e : Error) × (a ≡ err (wrap "send request" e)) × (b ≡ err (detail network_error e)))

module _ (H : Http) where
  sent-reached : (r : Result Response) → SameAnswer (sent H r) (reached H r)
  unfolding sent reached
  sent-reached (err e) = inr (e, refl, refl)
  sent-reached (ok resp) = inl refl

  -- `marketplaceRequest` gives the results of `postJSON` for a POST without a query and of
  -- `getJSON` for a GET without a body, except that a request that cannot be sent is a network
  -- error only there.
  marketplace_request-SameAnswer :
      (path : String) (query : List (String × String)) (body : Bytes)
      → SameAnswer (post_json H path body) (marketplace_request H "POST" path [] (some body))
        × SameAnswer (get_json H path query) (marketplace_request H "GET" path query none)
  unfolding post_json get_json marketplace_request url_with content_type_of
  marketplace_request-SameAnswer path query body = (
    created (H.new_request "POST" (server_url_for_path H.server_url path)) _,
    created (H.new_request "GET" (url_with H path query)) _,
  )
    where
      created :
          (made : Option Error) (r : Result Response)
          → SameAnswer
              (elim made [ some e ↦ create_failed H e | none ↦ sent H r ])
              (elim made [ some e ↦ create_failed H e | none ↦ reached H r ])
      created (some e) r = inl refl
      created none r = sent-reached r
