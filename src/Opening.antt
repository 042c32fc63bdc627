-- ===== src/Opening.antt =====
-- `New` of guard.go as a whole, with `decodePublicKeys`.
pub mod Laws
use banyan_hub_sdk.Base.{
  nat_eq, if◌then◌else◌, length, ℕ, String, Bool, true, false, not, Option, none, some, List, [],
  ◌∷◌,
}
use banyan_hub_sdk.Base.Text.{is_empty}
use banyan_hub_sdk.Config.{ManagedComponent, Config, set_defaults}
use banyan_hub_sdk.Config.Url.{ParsedUrl, normalize_server_url}
use banyan_hub_sdk.Errors.{
  Error, text, wrap, Result, ok, err, ◌>>=◌, ◌>>◌, refuse_if, map_err, or_fail,
}
use banyan_hub_sdk.Errors.Api.{Bytes}
use banyan_hub_sdk.Guard.{Settings, Guard, open_guard}
use banyan_hub_sdk.Http.Pinning.{Client, new_pinned_http_client}
use banyan_hub_sdk.Platform.{Platform}
use banyan_hub_sdk.Store.{Identity, Store}
use banyan_hub_sdk.Updater.{assign}

-- What `New` calls: `pem.Decode`, which gives the bytes of the first block, `url.Parse`, the collection of
-- the fingerprint, the reading of the state file, and the clock; with the names of the platform.
pub record OpeningEnv : Type 0 where
  pub goos : String
  pub goarch : String
  pub decode_pem : Bytes → Option Bytes
  pub parse_url : String → Result ParsedUrl
  pub machine_id : Result String
  pub aux_signals : List (String × String)
  pub hostname : String
  pub read_error : Option Error
  pub now : ℕ
  pub save_time : ℕ

-- A guard as `New` returns it: the parts that are fixed, and those that its methods change.
pub record NewGuard : Type 0 where
  pub config : Config
  pub settings : Settings
  pub client : Client
  pub guard : Guard
  pub version : String
  pub managed_versions : List (String × String)

-- `ed25519.PublicKeySize`
abbrev pub public_key_size : ℕ
public_key_size = 32

add_key : Bytes → Result (List Bytes) → Result (List Bytes)
add_key k (err e) = err e
add_key k (ok keys) = ok (k ∷ keys)

sized_key : Option Bytes → Result (List Bytes) → Result (List Bytes)
unfolding add_key
sized_key none rest = err (text "failed to decode public key PEM")
sized_key (some k) rest =
    if not (nat_eq (length k) public_key_size)
    then err (text "invalid ed25519 public key size")
    else add_key k rest

is_blank : Bytes → Bool
is_blank [] = true
is_blank (b ∷ bytes) = false

module _ (P : Platform) (E : OpeningEnv) where
  -- The loop of `decodePublicKeys`: blank entries are skipped, the first one that is no key ends it.
  decode_keys : List Bytes → Result (List Bytes)
  unfolding sized_key is_blank
  decode_keys [] = ok []
  decode_keys (pem ∷ candidates) =
      let rest = decode_keys candidates in
      if is_blank (P.trim_bytes pem) then rest else sized_key (E.decode_pem pem) rest

  some_keys : List Bytes → Result (List Bytes)
  some_keys [] = err (text "no valid ed25519 public keys configured")
  some_keys (k ∷ keys) = ok (k ∷ keys)

  -- `decodePublicKeys`
  unfoldable pub decode_public_keys : Bytes → List Bytes → Result (List Bytes)
  unfolding decode_keys some_keys
  decode_public_keys primary legacy = decode_keys (primary ∷ legacy) >>= some_keys

  abbrev unknown_versions : List ManagedComponent → List (String × String) → List (String × String)
  unknown_versions [] versions = versions
  unknown_versions (mc ∷ components) versions =
      unknown_versions components (assign mc.slug "unknown" versions)

  abbrev first_key : List Bytes → Bytes
  first_key [] = []
  first_key (k ∷ keys) = k

  identity_of : Config → String → Identity
  identity_of cfg machine_id = record {
    license_key = cfg.license_key;
    machine_id = machine_id;
    project_slug = cfg.project_slug;
    component_slug = cfg.component_slug;
  }

  -- The end of `New`, of the configuration with its defaults and its URL in normal form.
  assemble : Config → List Bytes → String → Client → Store → NewGuard
  unfolding identity_of
  assemble cfg keys machine_id client s = record {
    config = cfg;
    settings = record {
      identity = identity_of cfg machine_id;
      public_key = first_key keys;
      public_keys = keys;
      aux_signals = E.aux_signals;
      hostname = E.hostname;
    };
    client = client;
    guard = open_guard P (identity_of cfg machine_id) E.now E.save_time E.read_error s;
    version = "unknown";
    managed_versions = unknown_versions cfg.managed_components [];
  }

  -- `New` with the configuration completed; the store is that of the state file.
  new_with : Config → Store → Result NewGuard
  unfolding decode_public_keys assemble new_pinned_http_client normalize_server_url
  new_with cfg s = do
    refuse_if (is_empty cfg.license_key) (text "license_key is required")
    primary ← or_fail cfg.public_key_pem (text "public_key_pem is required")
    refuse_if (is_empty cfg.project_slug) (text "project_slug is required")
    refuse_if (is_empty cfg.component_slug) (text "component_slug is required")
    server_url ← normalize_server_url E.parse_url cfg.server_url
    keys ← decode_public_keys primary cfg.legacy_public_keys_pem
    machine_id ← map_err (wrap "collect fingerprint") E.machine_id
    client ← new_pinned_http_client (record cfg { server_url = server_url })
    ok (assemble (record cfg { server_url = server_url }) keys machine_id client s)

  -- `New`
  unfoldable pub new_guard : Config → Store → Result NewGuard
  unfolding new_with set_defaults
  new_guard cfg s = new_with (set_defaults E.goos E.goarch cfg) s
