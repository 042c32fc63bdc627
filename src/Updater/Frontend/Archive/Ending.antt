-- ===== src/Updater/Frontend/Archive/Ending.antt =====
-- The errors that end an unpacking.
use banyan_hub_sdk.Base.{Bool-cases, String, inl, inr, Option, none, some, List, [], ◌∷◌}
use banyan_hub_sdk.Errors.{Error, Result, ok, err}
use banyan_hub_sdk.Updater.Frontend.Archive.{
  MemberKind, directory, regular_file, other_member, Member, Archive, FileCall, then_call,
  unpack_file, unpack_kind, unpack_member, unpack_members, unpack, apply_result, unpack_rest,
  unpack_end,
}
use banyan_hub_sdk.Updater.Frontend.Paths.{join, is_inside}
use banyan_hub_sdk.Updater.Versions.{IsUpdateError, at_verify, at_apply}

abbrev pub Ends : List FileCall × Result (Unit {0}) → Type 0
Ends (calls, ok _) = Unit {0}
Ends (calls, err e) = IsUpdateError e

then_call-Ends :
    (c : FileCall) (fault : Option Error) (rest : List FileCall × Result (Unit {0}))
    → Ends rest
    → Ends (then_call c fault rest)
unfolding then_call
then_call-Ends c (some e) rest h = at_apply e
then_call-Ends c none (calls, ok x) h = tt
then_call-Ends c none (calls, err e) h = h

apply_result-Ends : (fault : Option Error) → Ends ([], apply_result fault)
unfolding apply_result
apply_result-Ends none = tt
apply_result-Ends (some e) = at_apply e

unpack_kind-Ends : (target : String) (m : Member) (k : MemberKind) → Ends (unpack_kind target m k)
unfolding unpack_kind unpack_file
unpack_kind-Ends target m directory = then_call-Ends _ m.mkdir ([], ok tt) tt
unpack_kind-Ends target m other_member = tt
unpack_kind-Ends target m regular_file = then_call-Ends _ m.mkdir _ (
    then_call-Ends _ m.open_file _
      (then_call-Ends _ m.copy_content _ (apply_result-Ends m.close_file)))

unpack_member-Ends : (dir : String) (m : Member) → Ends (unpack_member dir m)
unfolding unpack_member
unpack_member-Ends dir m = elim (Bool-cases (is_inside dir (join dir m.name))) [
  | inr out ↦ rw out tt
  | inl within ↦ rw within (unpack_kind-Ends (join dir m.name) m m.kind)
]

unpack_rest-Ends :
    (w rest : List FileCall × Result (Unit {0})) → Ends w → Ends rest → Ends (unpack_rest w rest)
unfolding unpack_rest
unpack_rest-Ends (calls, err e) rest h k = h
unpack_rest-Ends (calls, ok x) (after, ok y) h k = tt
unpack_rest-Ends (calls, ok x) (after, err e) h k = k

unpack_members-Ends :
    (dir : String) (members : List Member) (fault : Option Error)
    → Ends (unpack_members dir members fault)
unfolding unpack_members unpack_end
unpack_members-Ends dir [] none = tt
unpack_members-Ends dir [] (some e) = at_verify e
unpack_members-Ends dir (m ∷ members) fault =
    unpack_rest-Ends (unpack_member dir m) _ (unpack_member-Ends dir m)
      (unpack_members-Ends dir members fault)

pub unpack-Ends : (dir : String) (archive : Archive) → Ends (unpack dir archive)
unfolding unpack
unpack-Ends dir archive = unpack_members-Ends dir archive.members archive.failure
