-- ===== src/Updater/Laws.antt =====
-- What a binary update guarantees, on success and on each error.
use banyan_hub_sdk.Base.{
  Bool-cases, String, ◌≡◌, refl, ap, ◌∙◌, subst, inl, inr, Bool, true, false, List, arith,
}
use banyan_hub_sdk.Errors.{update_rollback, update_concurrent, Error, sentinel, is, Result, ok, err}
use banyan_hub_sdk.Errors.Api.{Bytes}
use banyan_hub_sdk.License.Laws.{SignedByAny}
use banyan_hub_sdk.Platform.{Platform}
use banyan_hub_sdk.Updater.{
  Callbacks, Updates, Target, current_version, set_version, DownloadMeta, BinaryEnv,
  verify_artifact, notify_update_failure, report_success, fail_with, after_apply, after_verify,
  after_download, after_request, locked_update, unlock, try_lock_update, update_binary_component,
}
use banyan_hub_sdk.Updater.Verified.{verify_artifact-signed}
use banyan_hub_sdk.Updater.Versions.{
  IsUpdateError, concurrent, downgrade, at_download, at_verify, at_apply, rollback_hidden, Same,
  Same-trans, notified-Same, progress-Same, success-Same, notified-locked, set_version-Same,
  current_version-locked, set_version-locked,
}

err-eq {ℓ} : {A : Type ℓ} {e f : Error} → Path (Result A) (err e) (err f) → e ≡ f
err-eq h = cc

module _ (C : Callbacks) (P : Platform) (keys : List Bytes) (newer : String → String → Bool)
    (E : BinaryEnv) (component : String) (t : Target) (latest : String) where
  -- The artifact that was installed: its measured hash is the announced one, and the announced hash is
  -- signed by one of the keys.
  pub record Installed (old_version : String) : Type 0 where
    pub announced : DownloadMeta
    pub sig : Bytes
    pub requested : E.request_meta ≡ ok announced
    pub downloaded : E.download announced.url ≡ ok announced.sha256
    pub decoded : P.decode_base64 announced.signature ≡ ok sig
    pub signed : SignedByAny P keys (P.sha256 (P.bytes_of announced.sha256)) sig
    pub applied : E.apply_binary ≡ ok tt
    pub is_newer : newer old_version latest ≡ true

  -- On success the artifact is installed and the version recorded; on an error the versions stay.
  abbrev pub Updated : Updates → Updates × Result (Unit {0}) → Type 0
  Updated u (v, ok _) = Installed (current_version t u) × Same v (set_version t latest u)
  Updated u (v, err e) = IsUpdateError e × Same v u

  fails :
      (w u : Updates) (old_version : String) (e : Error)
      → IsUpdateError e
      → Same w u
      → Updated u (fail_with C component old_version latest e w)
  unfolding fail_with
  fails w u old_version e k h = (
    k,
    Same-trans (notify_update_failure C component old_version latest e w) w u
        (notified-Same C component latest old_version e w) h,
  )

  module _ (u : Updates) where
    abbrev old : String
    old = current_version t u

    -- The stages, each with the result it goes on from.
    after_apply_lem :
        (v : Updates) (r : Result (Unit {0}))
        → Same v u
        → (r ≡ ok tt → Installed old)
        → Updated u (after_apply C P keys newer E component t latest old v r)
    unfolding after_apply
    after_apply_lem v (err e) s _ = fails v u old _ (at_apply e) s
    after_apply_lem v (ok tt) s installed = (
      installed refl,
      Same-trans (report_success C component old latest (set_version t latest v))
          (set_version t latest v) (set_version t latest u) (success-Same C component latest old _)
          (set_version-Same latest t v u s),
    )

    after_verify_lem :
        (v : Updates) (r : Result (Unit {0}))
        → Same v u
        → (r ≡ ok tt → E.apply_binary ≡ ok tt → Installed old)
        → Updated u (after_verify C P keys newer E component t latest old v r)
    unfolding after_verify
    after_verify_lem v (err e) s _ = fails v u old _ (at_verify e) s
    after_verify_lem v (ok tt) s installed =
        after_apply_lem _ E.apply_binary (progress-Same C component latest "applying" v u s)
          (installed refl)

    module _ (n : newer old latest ≡ true) where
      verified_and_applied :
          (m : DownloadMeta) (actual : String)
          → E.request_meta ≡ ok m
          → E.download m.url ≡ ok actual
          → verify_artifact P keys m actual ≡ ok tt
          → E.apply_binary ≡ ok tt
          → Installed old
      verified_and_applied m actual q d checked applied =
          let (same, (sig, decoded, signed)) = verify_artifact-signed P keys m actual checked in
          record {
            announced = m;
            sig = sig;
            requested = q;
            downloaded = d ∙ ap ok same;
            decoded = decoded;
            signed = signed;
            applied = applied;
            is_newer = n;
          }

      after_download_lem :
          (m : DownloadMeta) (v : Updates) (r : Result String)
          → E.request_meta ≡ ok m
          → E.download m.url ≡ r
          → Same v u
          → Updated u (after_download C P keys newer E component t latest old m v r)
      unfolding after_download
      after_download_lem m v (err e) q d s = fails v u old _ (at_download e) s
      after_download_lem m v (ok actual) q d s =
          after_verify_lem _ _ (progress-Same C component latest "verifying" v u s)
            (verified_and_applied m actual q d)

      after_request_lem :
          (v : Updates) (r : Result DownloadMeta)
          → E.request_meta ≡ r
          → Same v u
          → Updated u (after_request C P keys newer E component t latest old v r)
      unfolding after_request
      after_request_lem v (err e) q s = fails v u old _ (at_download e) s
      after_request_lem v (ok m) q s =
          after_download_lem m _ (E.download m.url) q refl
            (progress-Same C component latest "downloading" v u s)

  locked_update_lem :
      (u : Updates) → Updated u (locked_update C P keys newer E component t latest u)
  unfolding locked_update
  locked_update_lem u = elim (Bool-cases (newer (current_version t u) latest)) [
    | inr n ↦ simp n (fails u u _ _ downgrade (refl, refl))
    | inl n ↦ simp n (
        after_request_lem u n _ E.request_meta refl
          (progress-Same C component latest "requesting" u u (refl, refl)))
  ]

  unlock_lem :
      (u : Updates) (r : Updates × Result (Unit {0}))
      → Updated (record u { locked = true }) r
      → Updated u (unlock C P keys newer E component t latest r)
        × ((unlock C P keys newer E component t latest r).0.locked ≡ false)
  unfolding unlock
  unlock_lem u (v, ok _) (i, s) = (
    (
      subst Installed (current_version-locked latest t u) i,
      Same-trans v (set_version t latest (record u { locked = true })) (set_version t latest u) s
          (set_version-locked latest t u),
    ),
    refl,
  )
  unlock_lem u (v, err e) (k, s) = ((k, s), refl)

  try_lock_update_lem :
      (u : Updates) (l : Bool)
      → u.locked ≡ l
      → let r = try_lock_update C P keys newer E component t latest l u in
        Updated u r × (r.0.locked ≡ l) × (l ≡ true → r.1 ≡ err (sentinel update_concurrent))
  unfolding try_lock_update fail_with
  try_lock_update_lem u true l = (
    fails u u (current_version t u) (sentinel update_concurrent) concurrent (refl, refl),
    notified-locked C component latest (current_version t u) (sentinel update_concurrent) u ∙ l,
    λ _. refl,
  )
  try_lock_update_lem u false l =
      let v = record u { locked = true } in
      let (a, b) =
        unlock_lem u (locked_update C P keys newer E component t latest v) (locked_update_lem v) in
      (a, b, λ f. absurd (ground arith))

  -- Every update either installs an artifact that was announced, downloaded with the announced hash
  -- and signed under a key, and whose version is strictly newer, and records that version; or
  -- returns one of the update errors and leaves all versions as they were. It leaves the update
  -- lock as it found it, and a second update while one holds the lock is refused as concurrent.
  pub update_binary_component-Updated :
      (u : Updates)
      → let r = update_binary_component C P keys newer E component t latest u in
        Updated u r
        × (r.0.locked ≡ u.locked)
        × (u.locked ≡ true → r.1 ≡ err (sentinel update_concurrent))
  unfolding update_binary_component
  update_binary_component-Updated u = try_lock_update_lem u u.locked refl

  -- No update is reported as a failed rollback: `errors.Is` of its error and `ErrUpdateRollback` is
  -- false for every error an update returns.
  pub update_binary_component-rollback :
      (u : Updates) (e : Error)
      → (update_binary_component C P keys newer E component t latest u).1 ≡ err e
      → is e update_rollback ≡ false
  update_binary_component-rollback u e h =
      go (update_binary_component C P keys newer E component t latest u)
        ((update_binary_component-Updated u).0) h
    where
      go :
          (r : Updates × Result (Unit {0}))
          → Updated u r
          → r.1 ≡ err e
          → is e update_rollback ≡ false
      go (v, ok x) k q = absurd (ground arith)
      go (v, err e') (k, _) q = rollback_hidden (subst IsUpdateError (err-eq q) k)
