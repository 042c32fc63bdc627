-- ===== src/Updater/Frontend/Swap.antt =====
-- The end of `updateFrontend`: the old directory becomes the backup, the unpacked one takes its place.
use banyan_hub_sdk.Base.{if◌then◌else◌, ◌≡◌, ◌≢◌, ◌⊎◌, Bool, true, false, Option, none, some, arith}
use banyan_hub_sdk.Errors.{update_apply, not_exist, Error, sentinel, text, detail, Result, ok, err}

-- The three directories, with what they hold; `none` is a directory that is not there.
pub record Directories (A : Type 0) : Type 0 where
  pub target : Option A
  pub backup : Option A
  pub unpacked : Option A

-- What the operating system answers to each call; `none` is success. `stat` is an error other than
-- that the directory is absent.
pub record SwapFaults : Type 0 where
  pub remove_backup : Option Error
  pub stat : Option Error
  pub rename_away : Option Error
  pub rename_in : Option Error
  pub rename_back : Option Error
  pub remove_unpacked : Option Error

abbrev pub no_swap_faults : SwapFaults
no_swap_faults = record {
  remove_backup = none;
  stat = none;
  rename_away = none;
  rename_in = none;
  rename_back = none;
  remove_unpacked = none;
}

-- What `detail` wraps.
abbrev pub detail_of : Error → Error
detail_of (detail s e) = e
detail_of e = e

module _ {A : Type 0} where
  -- `os.Rename` of a directory: what is then at the old path and at the new one, and the error. It does
  -- not replace a directory.
  rename_dir : Option Error → Option A → Option A → Option A × Option A × Option Error
  rename_dir (some e) from to = (from, to, some e)
  rename_dir none none to = (none, to, some (sentinel not_exist))
  rename_dir none (some x) none = (none, some x, none)
  rename_dir none (some x) (some y) = (some x, some y, some (text "file exists"))

  -- `os.RemoveAll`; its error is dropped.
  unfoldable pub remove_all : Option Error → Option A → Option A
  remove_all (some e) d = d
  remove_all none d = none

  -- The rollback, whose error is dropped too.
  roll_back : SwapFaults → Directories A → Directories A
  unfolding rename_dir
  roll_back f d =
      let (backup, target, _) = rename_dir f.rename_back d.backup d.target in
      record d { target = target; backup = backup }

  unfoldable pub move_in : SwapFaults → Directories A → Directories A × Result (Unit {0})
  unfolding rename_dir roll_back
  move_in f d =
      let (unpacked, target, fault) = rename_dir f.rename_in d.unpacked d.target in
      elim fault [
        | some e ↦ (roll_back f d, err (detail update_apply e))
        | none ↦ (record d { target = target; unpacked = unpacked }, ok tt)
      ]

  unfoldable pub move_away : SwapFaults → Directories A → Directories A × Result (Unit {0})
  unfolding rename_dir move_in
  move_away f d =
      let (target, backup, fault) = rename_dir f.rename_away d.target d.backup in
      elim fault [
        | some e ↦ (d, err (detail update_apply e))
        | none ↦ move_in f (record d { target = target; backup = backup })
      ]

  abbrev is_there : Option Error → Option A → Bool
  is_there (some e) d = false
  is_there none none = false
  is_there none (some x) = true

  unfoldable pub swap : SwapFaults → Directories A → Directories A × Result (Unit {0})
  unfolding remove_all move_away move_in
  swap f d =
      let cleared = record d { backup = remove_all f.remove_backup d.backup } in
      if is_there f.stat d.target then move_away f cleared else move_in f cleared

  -- What a swap may leave: the unpacked directory in place and the old one as the backup; or on an error
  -- the old one in place, or, where the rollback failed too, none in place and the old one as the backup.
  abbrev pub Swapped : SwapFaults → Directories A → Directories A × Result (Unit {0}) → Type 0
  Swapped f d (e, ok _) = (e.target ≡ d.unpacked) × (e.backup ≡ d.target)
  Swapped f d (e, err x) =
      (x ≡ detail update_apply (detail_of x))
      × ((e.target ≡ d.target)
          ⊎ ((f.rename_back ≢ none) × (e.target ≡ none) × (e.backup ≡ d.target)))

  pub swap-Swapped :
      (f : SwapFaults) (d : Directories A) {x : A}
      → d.unpacked ≡ some x
      → (f.remove_backup ≡ none) ⊎ (d.backup ≡ none)
      → Swapped f d (swap f d)
  unfolding swap
  swap-Swapped f d u b = ground arith
