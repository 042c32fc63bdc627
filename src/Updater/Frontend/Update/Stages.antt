-- ===== src/Updater/Frontend/Update/Stages.antt =====
-- What an update of a frontend leaves, and its last stages: the unpacking and the swap.
use banyan_hub_sdk.Base.{
  String, ◌≡◌, refl, sym, ap, ◌∙◌, subst, ◌≢◌, ◌⊎◌, inl, Bool, true, Option, none, some, List,
}
use banyan_hub_sdk.Errors.{Error, Result, ok, err}
use banyan_hub_sdk.Errors.Api.{Bytes}
use banyan_hub_sdk.License.Laws.{SignedByAny}
use banyan_hub_sdk.Platform.{Platform}
use banyan_hub_sdk.Updater.{
  Callbacks, managed, current_version, set_version, DownloadMeta, notify_update_failure,
  report_success, fail_with,
}
use banyan_hub_sdk.Updater.Frontend.Archive.{Archive, FileCall, unpack}
use banyan_hub_sdk.Updater.Frontend.Archive.Ending.{Ends}
use banyan_hub_sdk.Updater.Frontend.Swap.{Directories, detail_of, swap, Swapped, swap-Swapped}
use banyan_hub_sdk.Updater.Frontend.Update.{
  FrontendEnv, FrontendUpdate, report_stage, hold, fail_frontend, on_swap, on_unpack,
}
use banyan_hub_sdk.Updater.Versions.{
  IsUpdateError, at_apply, Same, Same-trans, notified-Same, progress-Same, success-Same,
  set_version-Same,
}

module _ {A : Type 0} (C : Callbacks) (P : Platform) (keys : List Bytes)
    (newer : String → String → Bool) (E : FrontendEnv A) (slug : String) (latest : String) where
  -- What an update that succeeded has done: the announced archive was downloaded, with the announced
  -- hash, which one of the keys signed; it was unpacked to its end into the temporary directory.
  pub record Unpacked (old_version : String) (calls : List FileCall) : Type 0 where
    pub announced : DownloadMeta
    pub sig : Bytes
    pub dir : String
    pub archive : Archive
    pub requested : E.request_meta ≡ ok announced
    pub downloaded : E.download announced.url ≡ ok announced.sha256
    pub decoded : P.decode_base64 announced.signature ≡ ok sig
    pub signed : SignedByAny P keys (P.sha256 (P.bytes_of announced.sha256)) sig
    pub made_temp : E.make_temp ≡ ok dir
    pub read_archive : E.new_reader ≡ ok archive
    pub unpacked : unpack dir archive ≡ (calls, ok tt)
    pub is_newer : newer old_version latest ≡ true

  -- The old directory is in place, or was moved to the backup and could not be moved back.
  abbrev pub Kept : FrontendUpdate A → FrontendUpdate A → Type 0
  Kept v w =
      (v.directories.target ≡ w.directories.target)
      ⊎ ((E.swap_faults.rename_back ≢ none)
          × (v.directories.target ≡ none)
          × (v.directories.backup ≡ w.directories.target))

  abbrev pub FrontendUpdated : FrontendUpdate A → FrontendUpdate A × Result (Unit {0}) → Type 0
  FrontendUpdated w (v, ok _) =
      Unpacked (current_version (managed slug) w.updates) v.calls
      × Same v.updates (set_version (managed slug) latest w.updates)
      × (v.directories.target ≡ some (E.tree v.calls))
      × (v.directories.backup ≡ w.directories.target)
      × (v.hook_called ≡ E.has_hook)
  FrontendUpdated w (v, err e) =
      IsUpdateError e × Same v.updates w.updates × Kept v w × (v.hook_called ≡ w.hook_called)

  -- What holds before the swap.
  abbrev pub Untouched : FrontendUpdate A → FrontendUpdate A → Type 0
  Untouched v w =
      Same v.updates w.updates
      × (v.directories.target ≡ w.directories.target)
      × (v.directories.backup ≡ w.directories.backup)
      × (v.hook_called ≡ w.hook_called)

  pub staged :
      (stage : String) (v w : FrontendUpdate A)
      → Untouched v w
      → Untouched (report_stage C slug stage v) w
  unfolding report_stage
  staged stage v w (s, t, b, h) = (progress-Same C slug latest stage v.updates w.updates s, t, b, h)

  pub held :
      (calls : List FileCall) (d : Option A) (v w : FrontendUpdate A)
      → Untouched v w
      → Untouched (hold C calls d v) w
  unfolding hold
  held calls d v w h = h

  fails :
      (v w : FrontendUpdate A) (old_version : String) (e : Error)
      → IsUpdateError e
      → Same v.updates w.updates
      → Kept v w
      → v.hook_called ≡ w.hook_called
      → FrontendUpdated w (fail_frontend C P keys newer E slug latest old_version e v)
  unfolding fail_frontend fail_with
  fails v w old_version e k s d h = (
    k,
    Same-trans (notify_update_failure C slug old_version latest e v.updates) v.updates w.updates
        (notified-Same C slug latest old_version e v.updates) s,
    d,
    h,
  )

  pub fails_early :
      (v w : FrontendUpdate A) (old_version : String) (e : Error)
      → IsUpdateError e
      → Untouched v w
      → FrontendUpdated w (fail_frontend C P keys newer E slug latest old_version e v)
  fails_early v w old_version e k (s, d, _, h) = fails v w old_version e k s (inl d) h

  pub with_result : (r : List FileCall × Result (Unit {0})) → r.1 ≡ ok tt → r ≡ (r.0, ok tt)
  with_result (calls, r) k = ap (λ x. (calls, x)) k

  module _ (w : FrontendUpdate A) where
    abbrev old : String
    old = current_version (managed slug) w.updates

    abbrev Back : Directories A → Error → Option A → Type 0
    Back d e before =
        (d.target ≡ before)
        ⊎ ((E.swap_faults.rename_back ≢ none) × (d.target ≡ none) × (d.backup ≡ before))

    on_swap_lem :
        (v : FrontendUpdate A) (r : Directories A × Result (Unit {0}))
        → Untouched v w
        → Swapped E.swap_faults v.directories r
        → v.directories.unpacked ≡ some (E.tree v.calls)
        → Unpacked old v.calls
        → FrontendUpdated w (on_swap C P keys newer E slug latest old v r)
    unfolding on_swap
    on_swap_lem v (d, err e) (s, t, b, h) (k, l) u i =
        fails (record v { directories = d }) w old e
          (subst IsUpdateError (sym k) (at_apply (detail_of e))) s (subst (Back d e) t l) h
    on_swap_lem v (d, ok x) (s, t, b, h) (k, l) u i = (
      i,
      Same-trans (report_success C slug old latest (set_version (managed slug) latest v.updates))
          (set_version (managed slug) latest v.updates)
          (set_version (managed slug) latest w.updates) (success-Same C slug latest old _)
          (set_version-Same latest (managed slug) v.updates w.updates s),
      k ∙ u,
      l ∙ t,
      refl,
    )

    module _ (c : (E.swap_faults.remove_backup ≡ none) ⊎ (w.directories.backup ≡ none)) where
      pub on_unpack_lem :
          (v : FrontendUpdate A) (r : List FileCall × Result (Unit {0}))
          → Untouched v w
          → Ends r
          → (r.1 ≡ ok tt → Unpacked old r.0)
          → FrontendUpdated w (on_unpack C P keys newer E slug latest old v r)
      unfolding on_unpack hold report_stage
      on_unpack_lem v (calls, err e) h k i =
          fails_early _ w old _ k (held calls (some (E.tree calls)) v w h)
      on_unpack_lem v (calls, ok tt) (s, t, b, h) k i =
          let u = report_stage C slug "applying" (hold C calls (some (E.tree calls)) v) in
          on_swap_lem u (swap E.swap_faults u.directories)
            (staged "applying" (hold C calls (some (E.tree calls)) v) w
              (held calls (some (E.tree calls)) v w (s, t, b, h)))
            (swap-Swapped E.swap_faults u.directories refl
              (subst (λ d. (E.swap_faults.remove_backup ≡ none) ⊎ (d ≡ none)) (sym b) c))
            refl (i refl)
