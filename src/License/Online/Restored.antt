-- ===== src/License/Online/Restored.antt =====
-- A guard whose state was restored from the disk, before and after a failed license check.
use banyan_hub_sdk.Base.{Bool-cases, ℕ, ◌≡◌, refl, inl, inr, false, Option, some, arith}
use banyan_hub_sdk.Base.Text.{is_empty}
use banyan_hub_sdk.Errors.{lease_unavailable, Error, sentinel, ok, err}
use banyan_hub_sdk.Guard.{Settings, Guard, check, open_guard}
use banyan_hub_sdk.License.Online.{
  VerifyEnv, verify_online, validate_lease, validate_persisted_lease, verify_license,
  validate_state, continue_online,
}
use banyan_hub_sdk.Platform.{Platform}
use banyan_hub_sdk.State.{restore}
use banyan_hub_sdk.Store.{Store, load}
use banyan_hub_sdk.Store.Laws.{load-current}
use banyan_hub_sdk.Types.{Lease, PersistedState, active}

module _ (P : Platform) (S : Settings) (now save_time : ℕ) (read_error : Option Error)
    (s : Store) where
  abbrev pub opened : Guard
  opened = open_guard P S.identity now save_time read_error s

  opened-machine :
      {t : Store} {state : PersistedState}
      → load P S.identity read_error s ≡ (t, ok state)
      → opened ≡ record { machine = restore (some state); store = t }
  unfolding open_guard
  opened-machine e = rw e

  module _ (E : VerifyEnv) {t : Store} {state : PersistedState} {l : Lease}
      (loaded : load P S.identity read_error s ≡ (t, ok state)) (unlocked : state.lock_flag ≡ false)
      (unbanned : state.ban_flag ≡ false) (leased : state.lease ≡ some l) where
    restored_active : restore (some state) ≡ active
    unfolding restore
    restored_active = rw (unlocked, unbanned, leased)

    refused :
        {x : Error}
        → validate_lease P S E state ≡ err x
        → (z : Error) × (validate_state P S E active (some state) ≡ (active, err z))
    unfolding validate_state
    refused {x} invalid = elim (Bool-cases (is_empty state.lease_signature)) [
      | inl e ↦ (sentinel lease_unavailable, ground arith)
      | inr n ↦ (x, ground arith)
    ]

    refused_at_start :
        {x : Error}
        → validate_lease P S E state ≡ err x
        → (z : Error) × (validate_persisted_lease P S E opened ≡ (active, err z))
    unfolding validate_persisted_lease
    refused_at_start invalid =
        let (z, e) = refused invalid in
        (
          z,
          rw (opened-machine loaded, restored_active, load-current P S.identity read_error s loaded)
              e,
        )

    offline_check :
        {y : Error} (z : Error)
        → verify_online P S E opened ≡ err y
        → continue_online P S E opened (active, err z) ≡ (record opened { machine = active }, err y)
    unfolding continue_online verify_online
    offline_check z offline = rw offline

    -- Where the state file holds a lease and no flag: after `New` alone the guard is unlocked,
    -- whether or not the lease is signed, expired or bound to this machine; and a license check
    -- that then finds the lease invalid and fails online returns the online error and leaves the
    -- guard unlocked.
    pub unverified_lease_unlocks :
        {x y : Error}
        → validate_lease P S E state ≡ err x
        → verify_online P S E opened ≡ err y
        → (check opened ≡ ok tt)
          × ((verify_license P S E opened).1 ≡ err y)
          × (check (verify_license P S E opened).0 ≡ ok tt)
    unfolding check verify_license
    unverified_lease_unlocks invalid offline =
        let (z, e) = refused_at_start invalid in
        (
          rw (opened-machine loaded, restored_active) refl,
          rw (e, offline_check z offline) refl,
          rw (e, offline_check z offline) refl,
        )
