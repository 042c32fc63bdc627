-- ===== src/Http/Pinning.antt =====
-- `newPinnedHTTPClient` of guard.go, and the check that its client adds to TLS connections if it has pins.
use banyan_hub_sdk.Base.{
  if◌then◌else◌, string_eq, contains, String, ◌<>◌, ◌≡◌, refl, sym, ap, ◌∙◌, ◌↔◌, Bool, true, false,
  not, ◌&&◌, List, [], ◌∷◌, map, arith,
}
use banyan_hub_sdk.Base.Text.{trim_space, is_empty, has_prefix}
use banyan_hub_sdk.Config.{Config}
use banyan_hub_sdk.Errors.{
  tls_pin_mismatch, tls_pin_not_configured, sentinel_eq, sentinel, text, detail, Result, ok, err,
}
use banyan_hub_sdk.Errors.Api.{Bytes}
use banyan_hub_sdk.Platform.{Platform}
use banyan_hub_sdk.Types.{state_eq}

-- A client that trusts the system's roots alone, or one that compares the keys of connections with pins.
pub data Client : Type 0 where
  system_trust : Client
  pinned : List String → Client

-- The keys of the map `normalizedPins`.
abbrev pub normalize_pins : List String → List String
normalize_pins [] = []
normalize_pins (p ∷ pins) =
    if is_empty (trim_space p) then normalize_pins pins else trim_space p ∷ normalize_pins pins

-- The client for a URL, which may be one of https, and the pins.
client_for : Bool → List String → Result Client
client_for true [] = err (sentinel tls_pin_not_configured)
client_for false [] = ok (pinned [])
client_for https (p ∷ pins) = ok (pinned (p ∷ pins))

-- `newPinnedHTTPClient`
unfoldable pub new_pinned_http_client : Config → Result Client
unfolding client_for
new_pinned_http_client cfg =
    if cfg.allow_system_trust
    then ok system_trust
    else client_for (has_prefix (trim_space cfg.server_url) "https://")
        (normalize_pins cfg.pinned_spki_hashes)

some_pins :
    (pins : List String) (c : Client)
    → client_for true pins ≡ ok c
    → (p : String) × (rest : List String) × (c ≡ pinned (p ∷ rest))
unfolding client_for
some_pins [] c h = absurd (ground arith)
some_pins (p ∷ pins) c h = (p, pins, ground arith)

-- For https and without the system's trust there is no client without a pin.
pub client-secured :
    (cfg : Config) (c : Client)
    → new_pinned_http_client cfg ≡ ok c
    → cfg.allow_system_trust ≡ false
    → has_prefix (trim_space cfg.server_url) "https://" ≡ true
    → (p : String) × (rest : List String) × (c ≡ pinned (p ∷ rest))
unfolding new_pinned_http_client
client-secured cfg c h t s = some_pins (normalize_pins cfg.pinned_spki_hashes) c (ground arith)

module _ (P : Platform) where
  abbrev spki_hash : Bytes → String
  spki_hash key = P.encode_base64 (P.sha256 key)

  -- `VerifyConnection`, of the public keys of the certificates that the peer showed.
  unfoldable pub verify_connection : List String → List Bytes → Result (Unit {0})
  verify_connection [] peers = err (sentinel tls_pin_not_configured)
  verify_connection (p ∷ pins) [] = err (sentinel tls_pin_mismatch)
  verify_connection (p ∷ pins) (key ∷ peers) =
      if contains (p ∷ pins) (spki_hash key)
      then ok tt
      else err (detail tls_pin_mismatch (text ("got " <> spki_hash key)))

  -- The first certificate of the peer has a key whose hash is one of the pins, blanks trimmed.
  abbrev pub IsPinned : List String → List Bytes → Type 0
  IsPinned pins peers =
      (key : Bytes) × (rest : List Bytes) × (peers ≡ key ∷ rest)
      × (is_empty (spki_hash key) ≡ false)
      × (contains (map trim_space pins) (spki_hash key) ≡ true)

  contains-normalize_pins :
      (pins : List String) (s : String)
      → contains (normalize_pins pins) s ≡ (contains (map trim_space pins) s && not (is_empty s))
  contains-normalize_pins [] s = refl
  contains-normalize_pins (p ∷ pins) s = ground (arith, contains-normalize_pins pins s)

  verified_pin :
      (pins : List String) (peers : List Bytes)
      → verify_connection pins peers ≡ ok tt
      → (key : Bytes) × (rest : List Bytes) × (peers ≡ key ∷ rest)
        × (contains pins (spki_hash key) ≡ true)
  unfolding verify_connection
  verified_pin [] peers h = absurd (ground arith)
  verified_pin (p ∷ pins) [] h = absurd (ground arith)
  verified_pin (p ∷ pins) (key ∷ peers) h = (key, peers, refl, ground arith)

  pin_verified :
      (pins : List String) (key : Bytes) (rest : List Bytes)
      → contains pins (spki_hash key) ≡ true
      → verify_connection pins (key ∷ rest) ≡ ok tt
  unfolding verify_connection
  pin_verified [] key rest h = absurd (ground arith)
  pin_verified (p ∷ pins) key rest h = ground arith

  client_pins :
      (https : Bool) (pins got : List String) → client_for https pins ≡ ok (pinned got) → pins ≡ got
  unfolding client_for
  client_pins true [] got h = absurd (ground arith)
  client_pins false [] got h = ground arith
  client_pins https (p ∷ pins) got h = ground arith

  configured_pins :
      (cfg : Config) (pins : List String)
      → new_pinned_http_client cfg ≡ ok (pinned pins)
      → normalize_pins cfg.pinned_spki_hashes ≡ pins
  unfolding new_pinned_http_client
  configured_pins cfg pins h =
      client_pins (has_prefix (trim_space cfg.server_url) "https://") _ pins (ground arith)

  -- The check that a client with pins adds to its TLS connections, in `VerifyConnection`, beside
  -- the checks of the library and not over plain http, passes exactly when the first certificate of
  -- the peer has a key whose hash is not empty and is one of the configured pins with the blanks
  -- around them trimmed.
  pub verify_connection_iff :
      (cfg : Config) (pins : List String) (peers : List Bytes)
      → new_pinned_http_client cfg ≡ ok (pinned pins)
      → (verify_connection pins peers ≡ ok tt) ↔ IsPinned cfg.pinned_spki_hashes peers
  verify_connection_iff cfg pins peers h = (
    λ v.
        let (key, rest, shown, found) = verified_pin pins peers v in
        let both =
          sym (contains-normalize_pins cfg.pinned_spki_hashes (spki_hash key))
          ∙ (ap (λ ps. contains ps (spki_hash key)) (configured_pins cfg pins h) ∙ found) in
        (key, rest, shown, ground arith, ground arith),
    λ (key, rest, shown, full, found). rw shown (
        pin_verified pins key rest (
          ap (λ ps. contains ps (spki_hash key)) (sym (configured_pins cfg pins h))
          ∙ (contains-normalize_pins cfg.pinned_spki_hashes (spki_hash key) ∙ ground arith))),
  )
