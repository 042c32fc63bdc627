-- ===== src/Updater/Frontend/Archive/Laws.antt =====
-- Where an archive can write.
use banyan_hub_sdk.Base.{
  Bool-cases, All, All-append, String, ◌<>◌, ◌≡◌, sym, ap, ◌∙◌, inl, inr, true, Option, none, some,
  List, [], ◌∷◌,
}
use banyan_hub_sdk.Base.Text.{has_prefix}
use banyan_hub_sdk.Errors.{Error, Result, ok, err}
use banyan_hub_sdk.Updater.Frontend.Archive.{
  MemberKind, directory, regular_file, other_member, Member, Archive, FileCall, make_dir,
  make_parents, open_path, write_content, then_call, unpack_file, unpack_kind, unpack_member,
  unpack_members, unpack, unpack_rest,
}
use banyan_hub_sdk.Updater.Frontend.Paths.{join_segments, is_rooted, clean, join, is_inside}
use banyan_hub_sdk.Updater.Frontend.Paths.Cleaned.{join_rooted}
use banyan_hub_sdk.Updater.Frontend.Paths.Plain.{IsPlain}

abbrev pub path_of : FileCall → String
path_of (make_dir p mode) = p
path_of (make_parents p) = p
path_of (open_path p mode) = p
path_of (write_content p content) = p

-- The path of a call lies in the directory, and consists of plain segments: none is `..`.
abbrev pub IsConfined : String → FileCall → Type 0
IsConfined dir c =
    (has_prefix (path_of c) (clean dir <> "/") ≡ true)
    × ((segments : List String) × (path_of c ≡ "/" <> join_segments segments)
        × All IsPlain segments)

module _ (dir : String) (rooted : is_rooted dir ≡ true) where
  abbrev Confined : List FileCall × Result (Unit {0}) → Type 0
  Confined w = All (IsConfined dir) w.0

  -- What is said of a path holds of every call on it.
  abbrev IsTarget : String → Type 0
  IsTarget p = IsConfined dir (make_parents p)

  then_call-Confined :
      (c : FileCall) (fault : Option Error) (rest : List FileCall × Result (Unit {0}))
      → IsConfined dir c
      → Confined rest
      → Confined (then_call c fault rest)
  unfolding then_call
  then_call-Confined c (some e) rest k h = (k, tt)
  then_call-Confined c none rest k h = (k, h)

  unpack_kind-Confined :
      (target : String) (m : Member) (kind : MemberKind)
      → IsTarget target
      → Confined (unpack_kind target m kind)
  unfolding unpack_kind unpack_file
  unpack_kind-Confined target m directory k = then_call-Confined _ m.mkdir ([], ok tt) k tt
  unpack_kind-Confined target m other_member k = tt
  unpack_kind-Confined target m regular_file k =
      then_call-Confined _ m.mkdir _ k
        (then_call-Confined _ m.open_file _ k (then_call-Confined _ m.copy_content _ k tt))

  unpack_member-Confined : (m : Member) → Confined (unpack_member dir m)
  unfolding unpack_member is_inside
  unpack_member-Confined m = elim (Bool-cases (is_inside dir (join dir m.name))) [
    | inr out ↦ rw out tt
    | inl within ↦
        let (again, plain) = join_rooted dir m.name rooted in
        rw within (
          unpack_kind-Confined (join dir m.name) m m.kind
            (ap (λ p. has_prefix p (clean dir <> "/")) (sym again) ∙ within, plain))
  ]

  unpack_rest-Confined :
      (w rest : List FileCall × Result (Unit {0}))
      → Confined w
      → Confined rest
      → Confined (unpack_rest w rest)
  unfolding unpack_rest
  unpack_rest-Confined (calls, err e) rest h k = h
  unpack_rest-Confined (calls, ok x) (after, r) h k = All-append (IsConfined dir) calls after h k

  unpack_members-Confined :
      (members : List Member) (fault : Option Error) → Confined (unpack_members dir members fault)
  unfolding unpack_members
  unpack_members-Confined [] fault = tt
  unpack_members-Confined (m ∷ members) fault =
      unpack_rest-Confined (unpack_member dir m) _ (unpack_member-Confined m)
        (unpack_members-Confined members fault)

  -- Whatever the names in an archive: for a rooted temporary directory, every call that unpacking
  -- makes to create or write a file is on a path below that directory, and the path consists of
  -- names, none of which is empty, `.` or `..`.
  pub unpack-Confined : (archive : Archive) → All (IsConfined dir) (unpack dir archive).0
  unfolding unpack
  unpack-Confined archive = unpack_members-Confined archive.members archive.failure
