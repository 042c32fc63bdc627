-- ===== src/Services/Activation/Laws.antt =====
-- How an activation that succeeds was sent.
use banyan_hub_sdk.Base.{String, ◌<>◌, ◌≡◌, ◌⊎◌, true, false, some, List, [], ◌∷◌}
use banyan_hub_sdk.Base.Text.{trim_space, is_empty, has_prefix}
use banyan_hub_sdk.Config.{positive_or}
use banyan_hub_sdk.Config.Url.{normalize_server_url}
use banyan_hub_sdk.Errors.{Result, ok}
use banyan_hub_sdk.Errors.Api.{Bytes, Response}
use banyan_hub_sdk.Http.{Request, Http, accept_answer}
use banyan_hub_sdk.Http.Pinning.{Client, pinned}
use banyan_hub_sdk.Services.Activation.{
  ActivationOptions, ActivationResult, default_activation_timeout, ActivationEnv,
}

module _ (H : Http) (E : ActivationEnv) where
  -- The caller's client, or one that was made for the URL; one of these without the system's trust has a
  -- pin, if the URL is one of https.
  abbrev pub SentBy : ActivationOptions → String → (Request → Result Response) → Type 0
  SentBy o server_url send =
      (o.http_client ≡ some send)
      ⊎ ((c : Client) × (send ≡ E.connect c (positive_or o.timeout default_activation_timeout))
          × (o.allow_system_trust ≡ false
              → has_prefix (trim_space server_url) "https://" ≡ true
              → (pin : String) × (rest : List String) × (c ≡ pinned (pin ∷ rest))))

  -- The members of the body: the code, the organization, and the address if one is given.
  abbrev pub Named : ActivationOptions → List (String × String) → Type 0
  Named o fields =
      (is_empty o.email ≡ true → fields ≡ ("code", o.code) ∷ ("organization", o.organization) ∷ [])
      × (is_empty o.email ≡ false
          → fields ≡ ("code", o.code) ∷ ("organization", o.organization) ∷ ("email", o.email) ∷ [])

  pub record Activated (o : ActivationOptions) (r : ActivationResult) : Type 0 where
    pub server_url : String
    pub send : Request → Result Response
    pub request : Request
    pub fields : List (String × String)
    pub body : Bytes
    pub resp : Response
    pub raw : Bytes
    pub coded : is_empty o.code ≡ false
    pub organized : is_empty o.organization ≡ false
    pub normal : normalize_server_url E.parse_url o.server_url ≡ ok server_url
    pub sent_by : SentBy o server_url send
    pub by_post : request.method ≡ "POST"
    pub encoded : E.marshal fields ≡ ok body
    pub named : Named o fields
    pub carried : request.payload ≡ some body
    pub as_json : request.content_type ≡ some "application/json"
    pub posted : request.url ≡ server_url <> "/api/v1/activate"
    pub answered : send request ≡ ok resp
    pub accepted : accept_answer H resp ≡ ok raw
    pub decoded : E.unmarshal raw ≡ ok r

  abbrev connected : ActivationOptions → Client → Result (Request → Result Response)
  connected o c = ok (E.connect c (positive_or o.timeout default_activation_timeout))
