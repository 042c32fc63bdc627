-- ===== src/Updater/Frontend/Archive.antt =====
-- The unpacking of a frontend's archive: the loop of `updateFrontend` over the members of a tar file.
pub mod Laws
pub mod Ending
use banyan_hub_sdk.Base.{if◌then◌else◌, ℕ, String, not, Option, none, some, List, [], ◌∷◌, ◌++◌}
use banyan_hub_sdk.Errors.{update_verify, update_apply, Error, detail, Result, ok, err}
use banyan_hub_sdk.Errors.Api.{Bytes}
use banyan_hub_sdk.Updater.Frontend.Paths.{join, is_inside}

-- `tar.TypeDir`, `tar.TypeReg`, and all else, such as a link.
pub data MemberKind : Type 0 where
  directory regular_file other_member : MemberKind

-- A member, and what the operating system answers when it is unpacked; `none` is success.
pub record Member : Type 0 where
  pub name : String
  pub kind : MemberKind
  pub mode : ℕ
  pub content : Bytes
  pub mkdir : Option Error
  pub open_file : Option Error
  pub copy_content : Option Error
  pub close_file : Option Error

-- What `tar.Reader` gives: the members in order, then `io.EOF`, which is `none`, or an error.
pub record Archive : Type 0 where
  pub members : List Member
  pub failure : Option Error

-- The calls that change files, whether or not they succeed: `os.MkdirAll` of a path and of its parent,
-- `os.OpenFile`, and the copy into the opened file.
pub data FileCall : Type 0 where
  make_dir : String → ℕ → FileCall
  make_parents : String → FileCall
  open_path : String → ℕ → FileCall
  write_content : String → Bytes → FileCall

apply_result : Option Error → Result (Unit {0})
apply_result none = ok tt
apply_result (some e) = err (detail update_apply e)

-- A call, and what follows it if it succeeds.
unfoldable pub then_call :
    FileCall → Option Error → List FileCall × Result (Unit {0}) → List FileCall × Result (Unit {0})
then_call c (some e) rest = (c ∷ [], err (detail update_apply e))
then_call c none (calls, r) = (c ∷ calls, r)

unfoldable pub unpack_file : String → Member → List FileCall × Result (Unit {0})
unfolding then_call apply_result
unpack_file target m = then_call (make_parents target) m.mkdir (
    then_call (open_path target m.mode) m.open_file
      (then_call (write_content target m.content) m.copy_content ([], apply_result m.close_file)))

unfoldable pub unpack_kind : String → Member → MemberKind → List FileCall × Result (Unit {0})
unfolding unpack_file then_call
unpack_kind target m directory = then_call (make_dir target m.mode) m.mkdir ([], ok tt)
unpack_kind target m regular_file = unpack_file target m
unpack_kind target m other_member = ([], ok tt)

-- The body of the loop, for the directory into which the archive is unpacked.
unfoldable pub unpack_member : String → Member → List FileCall × Result (Unit {0})
unfolding unpack_kind
unpack_member dir m =
    let target = join dir m.name in
    if not (is_inside dir target) then ([], ok tt) else unpack_kind target m m.kind

unpack_rest :
    List FileCall × Result (Unit {0})
    → List FileCall × Result (Unit {0})
    → List FileCall × Result (Unit {0})
unpack_rest (calls, err e) rest = (calls, err e)
unpack_rest (calls, ok _) (after, r) = (calls ++ after, r)

unpack_end : Option Error → Result (Unit {0})
unpack_end none = ok tt
unpack_end (some e) = err (detail update_verify e)

-- The loop.
unfoldable pub unpack_members :
    String → List Member → Option Error → List FileCall × Result (Unit {0})
unfolding unpack_rest unpack_end
unpack_members dir [] fault = ([], unpack_end fault)
unpack_members dir (m ∷ members) fault =
    unpack_rest (unpack_member dir m) (unpack_members dir members fault)

unfoldable pub unpack : String → Archive → List FileCall × Result (Unit {0})
unpack dir archive = unpack_members dir archive.members archive.failure
