-- ===== src/Binding.antt =====
-- Hard binding: what a program can read only under its lease. `Unseal` and `FeatureToken` of guard.go,
-- the derivations of license.go, and the tool examples/hardbinding/sealbox/main.go that seals.
pub mod Laws
use banyan_hub_sdk.Base.{ltb, if◌then◌else◌, length, take, drop, ℕ, String, ◌<>◌, ◌++◌}
use banyan_hub_sdk.Errors.{hard_binding_unavailable, sentinel, detail, Result, ok, err}
use banyan_hub_sdk.Errors.Api.{Bytes}
use banyan_hub_sdk.Guard.{Guard, LeaseState, current_active_lease}
use banyan_hub_sdk.Platform.{Platform}
use banyan_hub_sdk.Types.{Lease}

-- A `cipher.AEAD`: its size of nonces, `Seal` and `Open` of a nonce, a text and the additional data.
pub record Aead : Type 0 where
  pub nonce_size : ℕ
  pub seal_bytes : Bytes → Bytes → Bytes → Bytes
  pub open_bytes : Bytes → Bytes → Bytes → Result Bytes

-- The tool's own `lease`, which it reads from the same JSON.
pub record SealLease : Type 0 where
  pub project_slug : String
  pub tier : String
  pub lease_id : String
  pub license_key : String
  pub machine_id : String

unfoldable pub sealing : Lease → SealLease
sealing l = record {
  project_slug = l.project_slug;
  tier = l.tier;
  lease_id = l.lease_id;
  license_key = l.license_key;
  machine_id = l.machine_id;
}

module _ (P : Platform) where
  -- The key that the tool derives.
  seal_key : SealLease → String → Result Bytes
  seal_key l signature = elim (P.decode_base64 signature) [
    | err e ↦ err e
    | ok sig ↦
        P.hkdf sig (P.bytes_of l.machine_id) (P.bytes_of ((l.license_key <> "|") <> l.lease_id))
  ]

  unfoldable pub derive_lease_secret : String → Lease → Result Bytes
  derive_lease_secret signature l = elim (P.decode_base64 signature) [
    | err e ↦ err e
    | ok sig ↦
        P.hkdf sig (P.bytes_of l.machine_id) (P.bytes_of ((l.license_key <> "|") <> l.lease_id))
  ]

  -- `(*lease).ComponentScope`
  unfoldable pub component_scope : Lease → String
  component_scope l = (l.tier <> "|") <> l.lease_id

  unfoldable pub lease_aad : Lease → Bytes
  unfolding component_scope
  lease_aad l = P.bytes_of ((l.project_slug <> "|") <> component_scope l)

  token_from : Result Bytes → String → Result String
  token_from (err e) name = err e
  token_from (ok secret) name = ok (P.encode_hex (P.hmac secret (P.bytes_of name)))

  unfoldable pub derive_feature_token : String → Lease → String → Result String
  unfolding token_from
  derive_feature_token signature l name = token_from (derive_lease_secret signature l) name

  bound_token : Result String → Result String
  bound_token (err e) = err (detail hard_binding_unavailable e)
  bound_token (ok token) = ok token

  unfoldable pub feature_token_of : Result LeaseState → String → Result String
  unfolding bound_token
  feature_token_of (err e) name = err e
  feature_token_of (ok s) name = bound_token (derive_feature_token s.lease_signature s.lease name)

  -- `FeatureToken`
  unfoldable pub feature_token : Guard → String → Result String
  feature_token g name = feature_token_of (current_active_lease g) name

  -- `aes.NewCipher` with `cipher.NewGCM`: a cipher for a key.
  module _ (new_gcm : Bytes → Result Aead) where
    abbrev pub cipher_of : Result Bytes → Result Aead
    cipher_of (err e) = err e
    cipher_of (ok secret) = new_gcm secret

    unfoldable pub new_lease_aead : String → Lease → Result Aead
    new_lease_aead signature l = cipher_of (derive_lease_secret signature l)

    open_box : Aead → Lease → Bytes → Result Bytes
    open_box a l box =
        if ltb (length box) a.nonce_size
        then err (sentinel hard_binding_unavailable)
        else elim (a.open_bytes (take a.nonce_size box) (drop a.nonce_size box) (lease_aad l)) [
          | err e ↦ err (detail hard_binding_unavailable e)
          | ok plain ↦ ok plain
        ]

    open_with : Result Aead → Lease → Bytes → Result Bytes
    open_with (err e) l box = err (detail hard_binding_unavailable e)
    open_with (ok a) l box = open_box a l box

    unfoldable pub unseal_with : Result LeaseState → Bytes → Result Bytes
    unfolding open_box open_with
    unseal_with (err e) box = err e
    unseal_with (ok s) box = open_with (new_lease_aead s.lease_signature s.lease) s.lease box

    -- `Unseal`
    unfoldable pub unseal : Guard → Bytes → Result Bytes
    unseal g box = unseal_with (current_active_lease g) box

    module _ (new_nonce : ℕ → Result Bytes) where
      fill_box : Bytes → Bytes → Aead → Result Bytes → Result Bytes
      fill_box plain aad a (err e) = err e
      fill_box plain aad a (ok nonce) = ok (nonce ++ a.seal_bytes nonce plain aad)

      seal_with : Bytes → Bytes → Result Aead → Result Bytes
      unfolding fill_box
      seal_with plain aad (err e) = err e
      seal_with plain aad (ok a) = fill_box plain aad a (new_nonce a.nonce_size)

      -- `seal`; `new_nonce` is `rand.Read` into so many bytes.
      unfoldable pub seal : SealLease → String → Bytes → Result Bytes
      unfolding seal_with seal_key
      seal l signature plain =
          seal_with plain (P.bytes_of ((((l.project_slug <> "|") <> l.tier) <> "|") <> l.lease_id))
            (cipher_of (seal_key l signature))
