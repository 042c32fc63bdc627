-- ===== src/Files/Laws.antt =====
-- A write replaces the whole file or leaves it alone, but not on Windows.
use banyan_hub_sdk.Base.{◌≡◌, true, false, Option, none, some, arith}
use banyan_hub_sdk.Errors.{Error}
use banyan_hub_sdk.Errors.Api.{Bytes}
use banyan_hub_sdk.Files.{Faults, Files, write_file_atomic}

-- What a write of `content` over the file `old` may leave: all of it and no temporary file, or on an
-- error the old file, and no temporary file where its removal succeeds.
abbrev pub Replaces : Bytes → Option Bytes → Option Error → Files × Option Error → Type 0
Replaces content old removal (fs, none) = fs ≡ record { target = some content; temp = none }
Replaces content old removal (fs, some e) = (fs.target ≡ old) × (removal ≡ none → fs.temp ≡ none)

-- Off Windows and with no temporary file about, whatever the operating system answers, a write that
-- succeeds has put the new content in place and left no temporary file, and a write that fails has
-- left the file as it was, and no temporary file where its removal succeeds.
pub write_file_atomic-Replaces :
    (f : Faults) (content : Bytes) (fs : Files)
    → f.windows ≡ false
    → fs.temp ≡ none
    → Replaces content fs.target f.remove_temp (write_file_atomic f content fs)
unfolding write_file_atomic
write_file_atomic-Replaces f content fs w t = ground arith

-- On Windows, where the first renaming fails, the old file can be removed and the second renaming
-- fail too: then the write reports that error and the file is gone.
pub write_file_atomic-windows_loses :
    (f : Faults) (content : Bytes) (fs : Files) {e g : Error}
    → f.windows ≡ true
    → f.create ≡ none
    → f.write ≡ none
    → f.chmod ≡ none
    → f.sync ≡ none
    → f.close ≡ none
    → f.rename ≡ some e
    → f.remove_target ≡ none
    → f.rename_again ≡ some g
    → ((write_file_atomic f content fs).1 ≡ some g)
      × ((write_file_atomic f content fs).0.target ≡ none)
unfolding write_file_atomic
write_file_atomic-windows_loses f content fs w a b c d h i j k = ground arith
