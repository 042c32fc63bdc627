-- ===== src/Updater/Frontend/Update/Laws.antt =====
-- What the update of a frontend guarantees, on success and on each error.
use banyan_hub_sdk.Base.{
  Bool-cases, String, ◌≡◌, refl, sym, ap, ◌∙◌, subst, ◌⊎◌, inl, inr, Bool, true, false, Option,
  none, some, List, [], arith,
}
use banyan_hub_sdk.Errors.{update_concurrent, Error, sentinel, Result, ok, err}
use banyan_hub_sdk.Errors.Api.{Bytes}
use banyan_hub_sdk.Platform.{Platform}
use banyan_hub_sdk.Updater.{
  Callbacks, managed, current_version, set_version, DownloadMeta, verify_artifact, fail_with,
}
use banyan_hub_sdk.Updater.Frontend.Archive.{Archive, FileCall, unpack}
use banyan_hub_sdk.Updater.Frontend.Archive.Ending.{unpack-Ends}
use banyan_hub_sdk.Updater.Frontend.Update.{
  FrontendEnv, FrontendUpdate, fail_frontend, on_reader, on_open, remove_temp, on_temp, on_verify,
  on_download, on_request, locked_frontend, set_lock, lock_frontend, update_managed_frontend,
}
use banyan_hub_sdk.Updater.Frontend.Update.Stages.{
  Unpacked, FrontendUpdated, Untouched, staged, held, fails_early, with_result, on_unpack_lem,
}
use banyan_hub_sdk.Updater.Verified.{verify_artifact-signed}
use banyan_hub_sdk.Updater.Versions.{
  concurrent, downgrade, at_download, at_verify, at_apply, Same-trans, notified-locked,
  current_version-locked, set_version-locked,
}

module _ {A : Type 0} (C : Callbacks) (P : Platform) (keys : List Bytes)
    (newer : String → String → Bool) (E : FrontendEnv A) (slug : String) (latest : String) where
  module _ (w : FrontendUpdate A) where
    abbrev old : String
    old = current_version (managed slug) w.updates

    module _ (c : (E.swap_faults.remove_backup ≡ none) ⊎ (w.directories.backup ≡ none)) where
      on_open_lem :
          (v : FrontendUpdate A) (dir : String) (fault : Option Error) (r : Result Archive)
          → Untouched C P keys newer E slug latest v w
          → E.new_reader ≡ r
          → ((archive : Archive) (calls : List FileCall)
              → r ≡ ok archive
              → unpack dir archive ≡ (calls, ok tt)
              → Unpacked C P keys newer E slug latest old calls)
          → FrontendUpdated C P keys newer E slug latest w
              (on_open C P keys newer E slug latest old dir v fault)
      unfolding on_open on_reader
      on_open_lem v dir (some e) r h q i =
          fails_early C P keys newer E slug latest v w old _ (at_apply e) h
      on_open_lem v dir none (err e) h q i =
          subst
            (λ r.
              FrontendUpdated C P keys newer E slug latest w
                (on_reader C P keys newer E slug latest old dir v r))
            (sym q) (fails_early C P keys newer E slug latest v w old _ (at_verify e) h)
      on_open_lem v dir none (ok archive) h q i =
          subst
            (λ r.
              FrontendUpdated C P keys newer E slug latest w
                (on_reader C P keys newer E slug latest old dir v r))
            (sym q)
            (on_unpack_lem C P keys newer E slug latest w c v (unpack dir archive) h
              (unpack-Ends dir archive)
              (λ k. i archive _ refl (with_result C P keys newer E slug latest _ k)))

      remove_temp_lem :
          (r : FrontendUpdate A × Result (Unit {0}))
          → FrontendUpdated C P keys newer E slug latest w r
          → FrontendUpdated C P keys newer E slug latest w
              (remove_temp C P keys newer E slug latest r)
      unfolding remove_temp
      remove_temp_lem (v, ok x) h = h
      remove_temp_lem (v, err e) h = h

      on_temp_lem :
          (v : FrontendUpdate A) (r : Result String)
          → Untouched C P keys newer E slug latest v w
          → ((dir : String) (archive : Archive) (calls : List FileCall)
              → r ≡ ok dir
              → E.new_reader ≡ ok archive
              → unpack dir archive ≡ (calls, ok tt)
              → Unpacked C P keys newer E slug latest old calls)
          → FrontendUpdated C P keys newer E slug latest w
              (on_temp C P keys newer E slug latest old v r)
      unfolding on_temp
      on_temp_lem v (err e) h i = fails_early C P keys newer E slug latest v w old _ (at_apply e) h
      on_temp_lem v (ok dir) h i = remove_temp_lem _ (
          on_open_lem _ dir E.open_archive E.new_reader
            (staged C P keys newer E slug latest "extracting" _ w
              (held C P keys newer E slug latest [] (some (E.tree [])) v w h))
            refl (λ archive calls. i dir archive calls refl))

      on_verify_lem :
          (v : FrontendUpdate A) (r : Result (Unit {0}))
          → Untouched C P keys newer E slug latest v w
          → (r ≡ ok tt
              → (dir : String) (archive : Archive) (calls : List FileCall) → E.make_temp ≡ ok dir
              → E.new_reader ≡ ok archive
              → unpack dir archive ≡ (calls, ok tt)
              → Unpacked C P keys newer E slug latest old calls)
          → FrontendUpdated C P keys newer E slug latest w
              (on_verify C P keys newer E slug latest old v r)
      unfolding on_verify
      on_verify_lem v (err e) h i =
          fails_early C P keys newer E slug latest v w old _ (at_verify e) h
      on_verify_lem v (ok tt) h i = on_temp_lem v E.make_temp h (i refl)

      module _ (n : newer old latest ≡ true) where
        installed_from :
            (m : DownloadMeta) (actual : String)
            → E.request_meta ≡ ok m
            → E.download m.url ≡ ok actual
            → verify_artifact P keys m actual ≡ ok tt
            → (dir : String) (archive : Archive) (calls : List FileCall) → E.make_temp ≡ ok dir
            → E.new_reader ≡ ok archive
            → unpack dir archive ≡ (calls, ok tt)
            → Unpacked C P keys newer E slug latest old calls
        installed_from m actual q d checked dir archive calls made readable whole =
            let (same, (sig, decoded, signed)) = verify_artifact-signed P keys m actual checked in
            record {
              announced = m;
              sig = sig;
              dir = dir;
              archive = archive;
              requested = q;
              downloaded = d ∙ ap ok same;
              decoded = decoded;
              signed = signed;
              made_temp = made;
              read_archive = readable;
              unpacked = whole;
              is_newer = n;
            }

        on_download_lem :
            (m : DownloadMeta) (v : FrontendUpdate A) (r : Result String)
            → E.request_meta ≡ ok m
            → E.download m.url ≡ r
            → Untouched C P keys newer E slug latest v w
            → FrontendUpdated C P keys newer E slug latest w
                (on_download C P keys newer E slug latest old m v r)
        unfolding on_download
        on_download_lem m v (err e) q d h =
            fails_early C P keys newer E slug latest v w old _ (at_download e) h
        on_download_lem m v (ok actual) q d h =
            on_verify_lem _ _ (staged C P keys newer E slug latest "verifying" v w h)
              (installed_from m actual q d)

        on_request_lem :
            (v : FrontendUpdate A) (r : Result DownloadMeta)
            → E.request_meta ≡ r
            → Untouched C P keys newer E slug latest v w
            → FrontendUpdated C P keys newer E slug latest w
                (on_request C P keys newer E slug latest old v r)
        unfolding on_request
        on_request_lem v (err e) q h =
            fails_early C P keys newer E slug latest v w old _ (at_download e) h
        on_request_lem v (ok m) q h =
            on_download_lem m _ (E.download m.url) q refl
              (staged C P keys newer E slug latest "downloading" v w h)

      locked_frontend_lem :
          FrontendUpdated C P keys newer E slug latest w
            (locked_frontend C P keys newer E slug latest w)
      unfolding locked_frontend
      locked_frontend_lem = elim (Bool-cases (newer old latest)) [
        | inr n ↦ simp n (
            fails_early C P keys newer E slug latest w w _ _ downgrade
              ((refl, refl), refl, refl, refl))
        | inl n ↦ simp n (
            on_request_lem n _ E.request_meta refl (
              staged C P keys newer E slug latest "requesting" w w
                ((refl, refl), refl, refl, refl)))
      ]

  set_lock_lem :
      (w : FrontendUpdate A) (r : FrontendUpdate A × Result (Unit {0}))
      → FrontendUpdated C P keys newer E slug latest
          (set_lock C P keys newer E slug latest true w)
          r
      → FrontendUpdated C P keys newer E slug latest w
          (set_lock C P keys newer E slug latest false r.0, r.1)
  unfolding set_lock
  set_lock_lem w (v, ok x) (i, s, t, b, h) = (
    subst (λ o. Unpacked C P keys newer E slug latest o v.calls)
        (current_version-locked latest (managed slug) w.updates) i,
    Same-trans v.updates (set_version (managed slug) latest (record w.updates { locked = true }))
        (set_version (managed slug) latest w.updates) s
        (set_version-locked latest (managed slug) w.updates),
    t,
    b,
    h,
  )
  set_lock_lem w (v, err e) h = h

  lock_frontend_lem :
      (w : FrontendUpdate A) (l : Bool)
      → w.updates.locked ≡ l
      → (E.swap_faults.remove_backup ≡ none) ⊎ (w.directories.backup ≡ none)
      → let r = lock_frontend C P keys newer E slug latest l w in
        FrontendUpdated C P keys newer E slug latest w r
        × (r.0.updates.locked ≡ l)
        × (l ≡ true → r.1 ≡ err (sentinel update_concurrent))
  unfolding lock_frontend set_lock fail_frontend fail_with
  lock_frontend_lem w true h c = (
    fails_early C P keys newer E slug latest w w (current_version (managed slug) w.updates)
        (sentinel update_concurrent) concurrent ((refl, refl), refl, refl, refl),
    notified-locked C slug latest (current_version (managed slug) w.updates)
          (sentinel update_concurrent) w.updates
        ∙ h,
    λ _. refl,
  )
  lock_frontend_lem w false h c =
      let u = set_lock C P keys newer E slug latest true w in
      (
        set_lock_lem w (locked_frontend C P keys newer E slug latest u) (locked_frontend_lem u c),
        refl,
        λ f. absurd (ground arith),
      )

  -- Where the old backup can be removed or is not there: an update of a frontend that succeeds has
  -- downloaded an archive with the announced hash, signed under a key, of a strictly newer version,
  -- has unpacked it to its end, put what it unpacked in place with the old directory as the backup,
  -- recorded the version and called the hook, if one is set; one that fails returns an update
  -- error, calls no hook, leaves all versions as they were, and leaves the old directory in place,
  -- unless the rename that rolls back fails too: then the old directory is the backup. It leaves
  -- the update lock as it found it, and an update while another holds the lock is refused as
  -- concurrent.
  pub update_managed_frontend-Updated :
      (w : FrontendUpdate A)
      → (E.swap_faults.remove_backup ≡ none) ⊎ (w.directories.backup ≡ none)
      → let r = update_managed_frontend C P keys newer E slug latest w in
        FrontendUpdated C P keys newer E slug latest w r
        × (r.0.updates.locked ≡ w.updates.locked)
        × (w.updates.locked ≡ true → r.1 ≡ err (sentinel update_concurrent))
  unfolding update_managed_frontend
  update_managed_frontend-Updated w c = lock_frontend_lem w w.updates.locked refl c
