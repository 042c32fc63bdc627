-- ===== src/Services/Marketplace.antt =====
-- The operations of marketplace.go. A page or a size that Go gives as a negative number is 0 here.
use banyan_hub_sdk.Base.{
  ltb, if◌then◌else◌, ℕ, String, ◌<>◌, Bool, not, ◌||◌, Option, none, some, List, [], ◌∷◌, ◌++◌,
}
use banyan_hub_sdk.Base.Text.{trim_space, is_empty}
use banyan_hub_sdk.Config.{Config, positive_or}
use banyan_hub_sdk.Errors.{
  invalid_server_response, text, wrap, detail, Result, ok, ◌>>=◌, ◌>>◌, refuse_if, map_err,
}
use banyan_hub_sdk.Errors.Api.{Bytes, or_else}
use banyan_hub_sdk.Http.{Http, marketplace_request}

-- `MarketplaceBrowseOptions`
pub record MarketplaceBrowseOptions : Type 0 where
  pub kind : String
  pub category : String
  pub target : String
  pub scope : String
  pub os : String
  pub arch : String
  pub search : String
  pub sort : String
  pub page : ℕ
  pub page_size : ℕ

-- `marketplaceAccessBody`, and the bodies that embed it; an absent text is empty.
pub record MarketplaceAccessBody : Type 0 where
  pub license_key : String
  pub machine_id : String
  pub project_slug : String
  pub os : String
  pub arch : String

pub record MarketplaceConfigureBody (Settled : Type 0) : Type 0 where
  pub access : MarketplaceAccessBody
  pub config : Settled

pub record MarketplaceStatusBody : Type 0 where
  pub access : MarketplaceAccessBody
  pub is_active : Bool
  pub error_message : String

pub record MarketplaceReviewBody : Type 0 where
  pub access : MarketplaceAccessBody
  pub score : ℕ
  pub title : String
  pub content : String

if_given : String → String → List (String × String)
if_given name value = if not (is_empty value) then (name, value) ∷ [] else []

slug_required : String → Result (Unit {0})
slug_required slug = refuse_if (is_empty slug) (text "marketplace slug is required")

-- `url.PathEscape` and `strconv.Itoa` are the last two parameters.
module _ (H : Http) (cfg : Config) (machine_id : String) (path_escape : String → String)
    (itoa : ℕ → String) where
  -- `marketplaceAccessBody`
  marketplace_access_body : MarketplaceAccessBody
  marketplace_access_body = record {
    license_key = cfg.license_key;
    machine_id = machine_id;
    project_slug = cfg.project_slug;
    os = cfg.ota.os;
    arch = cfg.ota.arch;
  }

  item_path : String → String → String
  item_path slug action = "/api/v1/marketplace/" <> (path_escape slug <> action)

  page_query : ℕ → ℕ → List (String × String)
  page_query page page_size =
      ("page", itoa (positive_or page 1)) ∷ ("page_size", itoa (positive_or page_size 20)) ∷ []

  browse_query : MarketplaceBrowseOptions → List (String × String)
  unfolding if_given page_query
  browse_query o =
      if_given "type" o.kind
      ++ (if_given "category" o.category
          ++ (if_given "target" o.target
              ++ (if_given "scope" o.scope
                  ++ (if_given "os" o.os
                      ++ (if_given "arch" o.arch
                          ++ (if_given "search" o.search
                              ++ (("sort", or_else o.sort "latest")
                                  ∷ page_query o.page o.page_size)))))))

  get_decoded :
      {B : Type 0} → String → (Bytes → Result B) → String → List (String × String) → Result B
  get_decoded problem unmarshal path query =
      map_err (wrap problem) (marketplace_request H "GET" path query none) >>= λ raw.
      map_err (detail invalid_server_response) (unmarshal raw)

  post_body : {A : Type 0} → String → (A → Result Bytes) → String → A → Result Bytes
  post_body problem marshal path a = map_err (wrap "marshal request") (marshal a) >>= λ body.
      map_err (wrap problem) (marketplace_request H "POST" path [] (some body))

  -- `GetMarketplaceCatalog`
  unfoldable pub get_marketplace_catalog :
      {B : Type 0} → (Bytes → Result B) → MarketplaceBrowseOptions → Result B
  unfolding browse_query get_decoded
  get_marketplace_catalog unmarshal options =
      get_decoded "request marketplace catalog" unmarshal "/api/v1/marketplace/browse"
        (browse_query options)

  -- `GetMarketplaceItem`
  unfoldable pub get_marketplace_item : {B : Type 0} → (Bytes → Result B) → String → Result B
  unfolding slug_required get_decoded item_path
  get_marketplace_item unmarshal slug =
      slug_required slug
      >> get_decoded "request marketplace item" unmarshal (item_path slug "") (
          ("license_key", cfg.license_key)
          ∷ ("machine_id", machine_id)
          ∷ ("project_slug", cfg.project_slug)
          ∷ [])

  -- `GetMarketplaceReviews`
  unfoldable pub get_marketplace_reviews :
      {B : Type 0} → (Bytes → Result B) → String → ℕ → ℕ → Result B
  unfolding slug_required get_decoded item_path page_query
  get_marketplace_reviews unmarshal slug page page_size =
      slug_required slug
      >> get_decoded "request marketplace reviews" unmarshal (item_path slug "/reviews")
          (page_query page page_size)

  -- `InstallMarketplaceItem`
  unfoldable pub install_marketplace_item :
      {B : Type 0} → (MarketplaceAccessBody → Result Bytes) → (Bytes → Result B) → String → Result B
  unfolding slug_required post_body item_path marketplace_access_body
  install_marketplace_item marshal unmarshal slug =
      slug_required slug
      >> post_body "install marketplace item" marshal (item_path slug "/install")
          marketplace_access_body
      >>= λ raw. map_err (detail invalid_server_response) (unmarshal raw)

  -- `UninstallMarketplaceItem`
  unfoldable pub uninstall_marketplace_item :
      (MarketplaceAccessBody → Result Bytes) → String → Result (Unit {0})
  unfolding slug_required post_body item_path marketplace_access_body
  uninstall_marketplace_item marshal slug =
      slug_required slug
      >> post_body "uninstall marketplace item" marshal (item_path slug "/uninstall")
          marketplace_access_body
      >>= λ raw. ok tt

  -- `ConfigureMarketplaceItem`; the second argument is the empty configuration, for a nil one.
  unfoldable pub configure_marketplace_item :
      {S : Type 0}
      → (MarketplaceConfigureBody S → Result Bytes)
      → S
      → String
      → Option S
      → Result (Unit {0})
  unfolding slug_required post_body item_path marketplace_access_body
  configure_marketplace_item marshal empty slug config =
      slug_required slug
      >> post_body "configure marketplace item" marshal (item_path slug "/configure") (record {
        access = marketplace_access_body;
        config = elim config [ none ↦ empty | some c ↦ c ];
      })
      >>= λ raw. ok tt

  -- `ReportMarketplaceStatus`
  unfoldable pub report_marketplace_status :
      (MarketplaceStatusBody → Result Bytes) → String → Bool → String → Result (Unit {0})
  unfolding slug_required post_body item_path marketplace_access_body
  report_marketplace_status marshal slug is_active error_message =
      slug_required slug
      >> post_body "report marketplace status" marshal (item_path slug "/status") (record {
        access = marketplace_access_body;
        is_active = is_active;
        error_message = trim_space error_message;
      })
      >>= λ raw. ok tt

  -- `SubmitMarketplaceReview`
  unfoldable pub submit_marketplace_review :
      {B : Type 0}
      → (MarketplaceReviewBody → Result Bytes)
      → (Bytes → Result B)
      → String
      → ℕ
      → String
      → String
      → Result B
  unfolding slug_required post_body item_path marketplace_access_body
  submit_marketplace_review marshal unmarshal slug score title content =
      slug_required slug
      >> refuse_if (ltb score 1 || ltb 5 score) (text "score must be in range [1,5]")
      >> post_body "submit marketplace review" marshal (item_path slug "/review") (record {
        access = marketplace_access_body;
        score = score;
        title = trim_space title;
        content = trim_space content;
      })
      >>= λ raw. map_err (detail invalid_server_response) (unmarshal raw)
