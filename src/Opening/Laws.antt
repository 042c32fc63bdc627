-- ===== src/Opening/Laws.antt =====
-- What holds of a guard that `New` returns.
use banyan_hub_sdk.Base.{
  if◌then◌else◌, Bool-cases, string_eq, ◌==◌, length, All, ◌<◌, String, ◌≡◌, refl, ◌∙◌, subst, inl,
  inr, true, false, Option, none, some, List, [], ◌∷◌, arith,
}
use banyan_hub_sdk.Base.Text.{trim_space, is_empty, has_prefix}
use banyan_hub_sdk.Config.{ManagedComponent, Config, default_server_url, set_defaults}
use banyan_hub_sdk.Config.Url.{normalize_server_url}
use banyan_hub_sdk.Errors.{
  sentinel_eq, wrap, Result, ok, err, map_err, or_fail, ok-eq, chained, allowed,
}
use banyan_hub_sdk.Errors.Api.{Bytes, or_else}
use banyan_hub_sdk.Guard.{verification_keys, open_guard}
use banyan_hub_sdk.Http.Pinning.{Client, pinned, new_pinned_http_client, client-secured}
use banyan_hub_sdk.License.Online.{signal}
use banyan_hub_sdk.Opening.{
  OpeningEnv, NewGuard, public_key_size, decode_public_keys, new_guard, add_key, sized_key,
  is_blank, decode_keys, some_keys, unknown_versions, identity_of, assemble, new_with,
}
use banyan_hub_sdk.Platform.{Platform}
use banyan_hub_sdk.Store.{Store}
use banyan_hub_sdk.Types.{state_eq}
use banyan_hub_sdk.Updater.{assign}
use mathlib.Core.Logic.{if_pos, if_neg}

signal-assign :
    (k j v : String) (m : List (String × String))
    → signal k (assign j v m) ≡ (if j == k then v else signal k m)
signal-assign k j v [] = refl
signal-assign k j v ((i, w) ∷ m) = elim (string_eq.dec i j) [
  | yes same ↦ rw (if_pos _ same) (ground (arith, same))
  | no other ↦ rw (if_neg _ other) (ground (arith, signal-assign k j v m))
]

module _ (P : Platform) (E : OpeningEnv) where
  -- Every key has the size of a key.
  sized_key-All :
      (k : Option Bytes) (rest : Result (List Bytes)) (keys : List Bytes)
      → ((tail : List Bytes) → rest ≡ ok tail → All (λ k. length k ≡ public_key_size) tail)
      → sized_key k rest ≡ ok keys
      → All (λ k. length k ≡ public_key_size) keys
  unfolding sized_key add_key
  sized_key-All none rest keys a h = absurd (ground arith)
  sized_key-All (some k) (err e) keys a h = absurd (ground arith)
  sized_key-All (some k) (ok tail) keys a h =
      let whole : (k ∷ tail) ≡ keys = ground arith in
      subst (All (λ k. length k ≡ public_key_size)) whole (ground arith, a tail refl)

  decode_keys-All :
      (candidates keys : List Bytes)
      → decode_keys P E candidates ≡ ok keys
      → All (λ k. length k ≡ public_key_size) keys
  unfolding decode_keys
  decode_keys-All [] keys h = subst (All (λ k. length k ≡ public_key_size)) (ok-eq h) tt
  decode_keys-All (pem ∷ candidates) keys h = elim (Bool-cases (is_blank (P.trim_bytes pem))) [
    | inl b ↦ decode_keys-All candidates keys (ground arith)
    | inr b ↦
        sized_key-All (E.decode_pem pem) (decode_keys P E candidates) keys
          (decode_keys-All candidates) (ground arith)
  ]

  -- The keys of a guard: there is a first one, and all have the size of a key.
  abbrev pub AreKeys : List Bytes → Type 0
  AreKeys keys =
      All (λ k. length k ≡ public_key_size) keys
      × ((k : Bytes) × (rest : List Bytes) × (keys ≡ k ∷ rest))

  some_keys-AreKeys :
      (found keys : List Bytes)
      → some_keys P E found ≡ ok keys
      → All (λ k. length k ≡ public_key_size) found
      → AreKeys keys
  unfolding some_keys
  some_keys-AreKeys [] keys h a = absurd (ground arith)
  some_keys-AreKeys (k ∷ found) keys h a = subst AreKeys (ok-eq h) (a, (k, found, refl))

  decode_public_keys-AreKeys :
      (primary : Bytes) (legacy keys : List Bytes)
      → decode_public_keys P E primary legacy ≡ ok keys
      → AreKeys keys
  unfolding decode_public_keys
  decode_public_keys-AreKeys primary legacy keys h =
      let (found, decoded, chosen) =
        chained (decode_keys P E (primary ∷ legacy)) (some_keys P E) h in
      some_keys-AreKeys found keys chosen (decode_keys-All (primary ∷ legacy) found decoded)

  kept_unknown :
      (slug : String) (components : List ManagedComponent) (m : List (String × String))
      → signal slug m ≡ "unknown"
      → signal slug (unknown_versions P E components m) ≡ "unknown"
  kept_unknown slug [] m h = h
  kept_unknown slug (mc ∷ components) m h =
      kept_unknown slug components (assign mc.slug "unknown" m)
        (signal-assign slug mc.slug "unknown" m ∙ ground (arith, h))

  unknown_versions-All :
      (components : List ManagedComponent) (m : List (String × String))
      → All (λ mc. signal mc.slug (unknown_versions P E components m) ≡ "unknown") components
  unknown_versions-All [] m = tt
  unknown_versions-All (mc ∷ components) m = (
    kept_unknown mc.slug components (assign mc.slug "unknown" m)
        (signal-assign mc.slug mc.slug "unknown" m ∙ ground arith),
    unknown_versions-All components (assign mc.slug "unknown" m),
  )

  -- What `New` checks and sets.
  pub record IsReady (cfg : Config) (s : Store) (g : NewGuard) : Type 0 where
    pub licensed : is_empty g.settings.identity.license_key ≡ false
    pub in_project : is_empty g.settings.identity.project_slug ≡ false
    pub in_component : is_empty g.settings.identity.component_slug ≡ false
    pub normal :
        normalize_server_url E.parse_url (or_else cfg.server_url default_server_url)
        ≡ ok g.config.server_url
    pub keyed : AreKeys g.settings.public_keys
    pub verified_with : verification_keys g.settings ≡ g.settings.public_keys
    pub connected : new_pinned_http_client g.config ≡ ok g.client
    pub secured :
        cfg.allow_system_trust ≡ false
        → has_prefix (trim_space g.config.server_url) "https://" ≡ true
        → (pin : String) × (rest : List String) × (g.client ≡ pinned (pin ∷ rest))
    pub beats : 0 < g.config.heartbeat_interval
    pub gives_up : 0 < g.config.grace_policy.max_offline_duration
    pub restored : g.guard ≡ open_guard P g.settings.identity E.now E.save_time E.read_error s
    pub unknown : All (λ mc. signal mc.slug g.managed_versions ≡ "unknown") cfg.managed_components

  assembled :
      (cfg : Config) (s : Store) (server_url : String) (keys : List Bytes) (machine_id : String)
      (client : Client)
      → let c = set_defaults E.goos E.goarch cfg in
        let d = record c { server_url = server_url } in
        is_empty c.license_key ≡ false
        → is_empty c.project_slug ≡ false
        → is_empty c.component_slug ≡ false
        → normalize_server_url E.parse_url c.server_url ≡ ok server_url
        → AreKeys keys
        → new_pinned_http_client d ≡ ok client
        → IsReady cfg s (assemble P E d keys machine_id client s)
  unfolding assemble identity_of set_defaults verification_keys
  assembled cfg s server_url keys machine_id client a b c n (sized, (k, rest, e)) p = record {
    licensed = a;
    in_project = b;
    in_component = c;
    normal = n;
    keyed = (sized, (k, rest, e));
    verified_with = ground (arith, e);
    connected = p;
    secured = λ t u.
        client-secured (record (set_defaults E.goos E.goarch cfg) { server_url = server_url })
          client p t u;
    beats = ground arith;
    gives_up = ground arith;
    restored = refl;
    unknown = unknown_versions-All cfg.managed_components [];
  }

  -- A guard that `New` returns has a license key, a project and a component, a server URL in normal
  -- form, at least one key, all keys of the size of an ed25519 key and all of them used for
  -- verification, a client that was made for that URL, which has a pin unless the system's trust is
  -- allowed or the URL is not one of https, a positive interval of heartbeats and a positive
  -- offline limit, the state that was restored from the store, and an unknown version for every
  -- managed component.
  pub new_guard-IsReady :
      (cfg : Config) (s : Store) (g : NewGuard) → new_guard P E cfg s ≡ ok g → IsReady cfg s g
  unfolding new_guard new_with
  new_guard-IsReady cfg s g h =
      let c = set_defaults E.goos E.goarch cfg in
      let (a, h₁) = allowed (is_empty c.license_key) _ _ h in
      let (primary, e₂, h₂) = chained (or_fail c.public_key_pem _) _ h₁ in
      let (b, h₃) = allowed (is_empty c.project_slug) _ _ h₂ in
      let (d, h₄) = allowed (is_empty c.component_slug) _ _ h₃ in
      let (server_url, n, h₅) = chained (normalize_server_url E.parse_url c.server_url) _ h₄ in
      let (keys, k, h₆) = chained (decode_public_keys P E primary c.legacy_public_keys_pem) _ h₅ in
      let (machine_id, i, h₇) = chained (map_err (wrap "collect fingerprint") E.machine_id) _ h₆ in
      let (client, p, h₈) =
        chained (new_pinned_http_client (record c { server_url = server_url })) _ h₇ in
      subst (IsReady cfg s) (ok-eq h₈) (
        assembled cfg s server_url keys machine_id client a b d n
          (decode_public_keys-AreKeys primary c.legacy_public_keys_pem keys k) p)
