-- ===== src/State/Laws.antt =====
-- The arrows of the state machine, and what the methods do on every state.
use banyan_hub_sdk.Base.{All, ◌≡◌, refl, sym, ◌≢◌, ◌↔◌, Bool, true, false, List, [], ◌∷◌, arith}
use banyan_hub_sdk.State.{
  on_verify_success, on_heartbeat_ok, on_heartbeat_fail, on_kill, on_grace_period_expired,
}
use banyan_hub_sdk.Types.{State, init, active, grace, locked_state, banned_state}

-- What drives the machine.
pub data Trigger : Type 0 where
  verified beat_ok beat_failed killed expired : Trigger

unfoldable pub fire : Trigger → State → State
unfolding on_verify_success on_heartbeat_ok on_heartbeat_fail on_kill on_grace_period_expired
fire verified = on_verify_success
fire beat_ok = on_heartbeat_ok
fire beat_failed = on_heartbeat_fail
fire killed = on_kill
fire expired = on_grace_period_expired

unfoldable pub fire_all : List Trigger → State → State
unfolding fire
fire_all [] s = s
fire_all (t ∷ ts) s = fire_all ts (fire t s)

-- `Check` allows these two.
abbrev pub is_usable : State → Bool
is_usable active = true
is_usable grace = true
is_usable _ = false

-- The arrows of the diagram in README.md, each with what drives the machine along it, and beside them:
-- a verified license leads to ACTIVE from every state, ACTIVE may be locked at once; nothing else
-- moves the machine.
pub data Arrow : Trigger → State → State → Type 0 where
  verify : {s : State} → Arrow verified s active
  ban : {s : State} → Arrow killed s banned_state
  recover : Arrow beat_ok grace active
  confirm : Arrow beat_ok active active
  ignore_ok : {s : State} → is_usable s ≡ false → Arrow beat_ok s s
  degrade : Arrow beat_failed active grace
  ignore_failure : {s : State} → s ≢ active → Arrow beat_failed s s
  lock_active : Arrow expired active locked_state
  lock_grace : Arrow expired grace locked_state
  ignore_expiry : {s : State} → is_usable s ≡ false → Arrow expired s s

fire-Arrow : (t : Trigger) (s : State) → Arrow t s (fire t s)
unfolding fire
fire-Arrow verified s = verify
fire-Arrow killed s = ban
fire-Arrow beat_ok active = confirm
fire-Arrow beat_ok grace = recover
fire-Arrow beat_ok init = ignore_ok refl
fire-Arrow beat_ok locked_state = ignore_ok refl
fire-Arrow beat_ok banned_state = ignore_ok refl
fire-Arrow beat_failed active = degrade
fire-Arrow beat_failed grace = ignore_failure (λ h. cc)
fire-Arrow beat_failed init = ignore_failure (λ h. cc)
fire-Arrow beat_failed locked_state = ignore_failure (λ h. cc)
fire-Arrow beat_failed banned_state = ignore_failure (λ h. cc)
fire-Arrow expired active = lock_active
fire-Arrow expired grace = lock_grace
fire-Arrow expired init = ignore_expiry refl
fire-Arrow expired locked_state = ignore_expiry refl
fire-Arrow expired banned_state = ignore_expiry refl

Arrow-fire : {t : Trigger} {s u : State} → Arrow t s u → fire t s ≡ u
unfolding fire
Arrow-fire verify = refl
Arrow-fire ban = refl
Arrow-fire recover = refl
Arrow-fire confirm = refl
Arrow-fire {s = s} (ignore_ok h) = ground arith
Arrow-fire degrade = refl
Arrow-fire {s = s} (ignore_failure h) = ground arith
Arrow-fire lock_active = refl
Arrow-fire lock_grace = refl
Arrow-fire {s = s} (ignore_expiry h) = ground arith

-- Each method of the state machine takes exactly its own arrows: a verified license leads to ACTIVE
-- and a kill to BANNED, from every state; a heartbeat that succeeds leads from GRACE and ACTIVE to
-- ACTIVE, one that fails from ACTIVE to GRACE, an expiry from GRACE and ACTIVE to LOCKED; and each
-- of these three leaves every other state as it is.
pub fire_follows : (t : Trigger) (s u : State) → (fire t s ≡ u) ↔ Arrow t s u
fire_follows t s u = (λ e. rw (sym e) (fire-Arrow t s), Arrow-fire)

fire_unusable :
    (t : Trigger) (s : State) → t ≢ verified → is_usable s ≡ false → is_usable (fire t s) ≡ false
unfolding fire
fire_unusable t s n u = ground arith

-- A machine that is not usable stays so until a license is verified, whatever else happens to it in
-- whatever order.
pub fire_all_unusable :
    (ts : List Trigger) (s : State)
    → All (λ t. t ≢ verified) ts
    → is_usable s ≡ false
    → is_usable (fire_all ts s) ≡ false
unfolding fire_all
fire_all_unusable [] s h u = u
fire_all_unusable (t ∷ ts) s h u = fire_all_unusable ts (fire t s) h.1 (fire_unusable t s h.0 u)

-- What a heartbeat does to a usable machine.
module _ (s : State) (u : is_usable s ≡ true) where
  pub on_heartbeat_ok-usable : on_heartbeat_ok s ≡ active
  unfolding on_heartbeat_ok
  on_heartbeat_ok-usable = ground arith

  pub on_heartbeat_fail-usable : on_heartbeat_fail s ≡ grace
  unfolding on_heartbeat_fail
  on_heartbeat_fail-usable = ground arith

  pub on_grace_period_expired-usable : on_grace_period_expired s ≡ locked_state
  unfolding on_grace_period_expired
  on_grace_period_expired-usable = ground arith
