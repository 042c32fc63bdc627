-- ===== src/Errors.antt =====
-- errors.go and the error values of api_error.go: sentinels, wrapping, and `errors.Is`.
pub mod Codes
pub mod Api
pub mod Laws
use banyan_hub_sdk.Base.{
  if◌then◌else◌, Eq, string_eq, ◌==◌, ℕ, String, ◌≡◌, refl, ap, ◌⊎◌, inl, inr, Bool, true, false,
  not, ◌||◌, Option, none, some, List, [], ◌∷◌,
}

-- The values of errors.go, and below them the sentinels of Go's standard library that the SDK
-- compares with.
pub data Sentinel : Type 0 where
  invalid_request license_invalid license_expired license_suspended machine_banned : Sentinel
  machine_not_registered max_machines_exceeded project_not_found : Sentinel
  project_not_authorized binary_not_recognized timestamp_expired nonce_reused : Sentinel
  lease_revoked update_frozen network_error invalid_server_url : Sentinel
  invalid_server_response not_found missing_parameter not_activated locked banned : Sentinel
  state_tampered clock_rollback lease_binding_mismatch lease_unavailable : Sentinel
  heartbeat_invalid heartbeat_nonce_mismatch tls_pin_mismatch tls_pin_not_configured : Sentinel
  hard_binding_unavailable cdk_not_found cdk_already_used cdk_revoked : Sentinel
  license_creation_failed update_download update_verify update_apply : Sentinel
  update_rollback update_downgrade update_concurrent plugin_not_found : Sentinel
  plugin_not_managed no_plugin_update plugin_ota_disabled component_not_found : Sentinel
  upload_invalid marketplace_incompatible marketplace_install_required : Sentinel
  marketplace_not_installed marketplace_config_invalid : Sentinel
  context_canceled deadline_exceeded not_exist : Sentinel

Sentinel-discrete : Discrete Sentinel
Sentinel-discrete = hlevel

instance unfoldable pub sentinel_eq : Eq Sentinel
unfolding Sentinel-discrete
sentinel_eq = record { dec = Sentinel-discrete }

-- `APIError`
pub record ApiError : Type 0 where
  pub status_code : ℕ
  pub code : String
  pub message : String
  pub cause : Sentinel

-- `text m` is an error that wraps nothing; `wrap m e` is `fmt.Errorf("m: %w", e)`;
-- `detail s e` is `fmt.Errorf("%w: %v", s, e)`, which prints `e` and does not wrap it.
pub data Error : Type 0 where
  sentinel : Sentinel → Error
  text : String → Error
  wrap : String → Error → Error
  detail : Sentinel → Error → Error
  api : ApiError → Error

-- `(*APIError).Unwrap`
unfoldable pub unwrap : ApiError → List Sentinel
unwrap e =
    invalid_server_response
    ∷ (if not (e.cause == invalid_server_response) then e.cause ∷ [] else [])

abbrev any_is : List Sentinel → Sentinel → Bool
any_is [] s = false
any_is (t ∷ ts) s = t == s || any_is ts s

-- `errors.Is`
unfoldable pub is : Error → Sentinel → Bool
unfolding unwrap
is (sentinel t) s = t == s
is (text m) s = false
is (wrap m e) s = is e s
is (detail t e) s = t == s
is (api a) s = any_is (unwrap a) s

-- `errors.As(err, &apiErr)`
unfoldable pub as_api : Error → Option ApiError
as_api (sentinel t) = none
as_api (text m) = none
as_api (wrap m e) = as_api e
as_api (detail t e) = none
as_api (api a) = some a

-- `isFatalError` of heartbeat.go
unfoldable pub is_fatal_error : Error → Bool
unfolding is
is_fatal_error e = is e banned || is e license_suspended || is e machine_banned

-- What an operation returns beside its error. `err e` is a non-nil error.
pub data Result {ℓ} (A : Type ℓ) : Type ℓ where
  ok : A → Result A
  err : Error → Result A

-- `x, err := first(); if err != nil { return err }; return rest(x)`
infixl 5 ◌>>=◌ ◌>>◌
abbrev pub ◌>>=◌ {ℓ ℓ'} : {S : Type ℓ} {T : Type ℓ'} → Result S → (S → Result T) → Result T
err failure >>= rest = err failure
ok x >>= rest = rest x

abbrev pub ◌>>◌ {ℓ} : {T : Type ℓ} → Result (Unit {0}) → Result T → Result T
first >> rest = first >>= λ _. rest

-- `if bad { return err }`
abbrev pub refuse_if : Bool → Error → Result (Unit {0})
refuse_if bad e = if bad then err e else ok tt

-- `if err != nil { return f(err) }`
abbrev pub map_err {ℓ} : {A : Type ℓ} → (Error → Error) → Result A → Result A
map_err f (ok a) = ok a
map_err f (err e) = err (f e)

-- A value that is missing is the error `e`.
abbrev pub or_fail {ℓ} : {A : Type ℓ} → Option A → Error → Result A
or_fail none e = err e
or_fail (some a) e = ok a

pub ok-eq {ℓ} : {A : Type ℓ} {a b : A} → Path (Result A) (ok a) (ok b) → a ≡ b
ok-eq h = cc

-- Inversion of an early return of an error.
pub if-err-eq-ok {ℓ} :
    {A : Type ℓ} (b : Bool) (e : Error) (m : Result A) {a : A}
    → (if b then err e else m) ≡ ok a
    → (b ≡ false) × (m ≡ ok a)
if-err-eq-ok true e m h = cc
if-err-eq-ok false e m h = (refl, h)

pub Result-cases {ℓ} :
    {A : Type ℓ} (r : Result A) → ((a : A) × (r ≡ ok a)) ⊎ ((e : Error) × (r ≡ err e))
Result-cases (ok a) = inl (a, refl)
Result-cases (err e) = inr (e, refl)

-- Inversion of a chain.
pub chained :
    {S : Type 0} {T : Type 0} (m : Result S) (f : S → Result T) {t : T}
    → (m >>= f) ≡ ok t
    → (a : S) × (m ≡ ok a) × (f a ≡ ok t)
chained (err e) f h = absurd (cc)
chained (ok a) f h = (a, refl, h)

pub allowed :
    {T : Type 0} (bad : Bool) (e : Error) (m : Result T) {t : T}
    → (refuse_if bad e >> m) ≡ ok t
    → (bad ≡ false) × (m ≡ ok t)
allowed true e m h = absurd (cc)
allowed false e m h = (refl, h)

pub present : {A : Type 0} (o : Option A) (e : Error) {a : A} → or_fail o e ≡ ok a → o ≡ some a
present none e h = absurd (cc)
present (some b) e h = ap some (ok-eq h)
