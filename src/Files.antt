-- ===== src/Files.antt =====
-- `writeFileAtomic` and `renameAtomic` of state.go, over one target file and one temporary file.
pub mod Laws
use banyan_hub_sdk.Base.{if◌then◌else◌, take, ℕ, Bool, false, not, Option, none, some, []}
use banyan_hub_sdk.Errors.{not_exist, Error, is}
use banyan_hub_sdk.Errors.Api.{Bytes}

-- What the operating system answers to each call of one write: `none` is success. A failed write
-- leaves the first `written` bytes.
pub record Faults : Type 0 where
  pub windows : Bool
  pub mkdir : Option Error
  pub create : Option Error
  pub written : ℕ
  pub write : Option Error
  pub chmod : Option Error
  pub sync : Option Error
  pub close : Option Error
  pub rename : Option Error
  pub remove_target : Option Error
  pub rename_again : Option Error
  pub remove_temp : Option Error

abbrev pub no_faults : Faults
no_faults = record {
  windows = false;
  mkdir = none;
  create = none;
  written = 0;
  write = none;
  chmod = none;
  sync = none;
  close = none;
  rename = none;
  remove_target = none;
  rename_again = none;
  remove_temp = none;
}

-- The file that is replaced, and the temporary file beside it; `none` is a file that is not there.
pub record Files : Type 0 where
  pub target : Option Bytes
  pub temp : Option Bytes

-- `os.Rename(tmpName, path)`
os_rename : Option Error → Files → Files × Option Error
os_rename (some e) fs = (fs, some e)
os_rename none fs = (record { target = fs.temp; temp = none }, none)

-- The second attempt of `renameAtomic`, on Windows, after the first failed with `e`.
rename_over : Error → Faults → Files → Files × Option Error
unfolding os_rename is
rename_over e f fs = elim f.remove_target [
  | none ↦ os_rename f.rename_again (record fs { target = none })
  | some r ↦ if not (is r not_exist) then (fs, some e) else os_rename f.rename_again fs
]

-- `renameAtomic`
unfoldable pub rename_atomic : Faults → Files → Files × Option Error
unfolding os_rename rename_over
rename_atomic f fs = elim f.rename [
  | none ↦ os_rename none fs
  | some e ↦ if not f.windows then (fs, some e) else rename_over e f fs
]

-- The calls between the creation of the temporary file and its renaming.
fill_temp : Faults → Bytes → Files → Files × Option Error
unfolding rename_atomic
fill_temp f content fs = elim f.write [
  | some e ↦ (record fs { temp = some (take f.written content) }, some e)
  | none ↦
      let filled = record fs { temp = some content } in
      elim f.chmod [
        | some e ↦ (filled, some e)
        | none ↦ elim f.sync [
          | some e ↦ (filled, some e)
          | none ↦ elim f.close [ some e ↦ (filled, some e) | none ↦ rename_atomic f filled ]
        ]
      ]
]

-- The deferred `os.Remove(tmpName)`, whose own error is dropped. After a success it does not run.
clean_up : Option Error → Files × Option Error → Files × Option Error
clean_up failed (fs, none) = (fs, none)
clean_up none (fs, some e) = (record fs { temp = none }, some e)
clean_up (some r) (fs, some e) = (fs, some e)

-- `writeFileAtomic`
unfoldable pub write_file_atomic : Faults → Bytes → Files → Files × Option Error
unfolding fill_temp clean_up
write_file_atomic f content fs = elim f.create [
  | some e ↦ (fs, some e)
  | none ↦ clean_up f.remove_temp (fill_temp f content (record fs { temp = some [] }))
]
