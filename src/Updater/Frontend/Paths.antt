-- ===== src/Updater/Frontend/Paths.antt =====
-- What `updateFrontend` uses of Go's package path/filepath on Unix, and its test of an archive's names.
pub mod Plain
pub mod Cleaned
use banyan_hub_sdk.Base.{
  nat_eq, if◌then◌else◌, string_eq, ◌==◌, String, ◌<>◌, Bool, true, false, ◌||◌, List, [], ◌∷◌,
}
use banyan_hub_sdk.Base.Text.{is_empty, has_prefix}
use banyan_hub_sdk.Errors.{sentinel_eq}
use banyan_hub_sdk.Types.{state_eq}
use Prim.Native.Char.{Char, code}
use mathlib.Core.List.{reverse}

abbrev pub is_separator : Char → Bool
is_separator c = nat_eq (code c) b'/'

unfoldable pub push_char : Char → List String → List String
push_char c [] = String.◌∷◌ c String.[] ∷ []
push_char c (s ∷ segments) = String.◌∷◌ c s ∷ segments

-- The segments between the separators.
unfoldable pub split : String → List String
unfolding push_char
split String.[] = String.[] ∷ []
split (String.◌∷◌ c s) = if is_separator c then String.[] ∷ split s else push_char c (split s)

abbrev pub join_segments : List String → String
join_segments [] = ""
join_segments (s ∷ []) = s
join_segments (s ∷ r ∷ segments) = s <> ("/" <> join_segments (r ∷ segments))

abbrev pub is_rooted : String → Bool
is_rooted s = has_prefix s "/"

-- `..` drops the segment before it. At the root it is dropped itself, elsewhere it stays.
unfoldable pub go_up : Bool → List String → List String
go_up true [] = []
go_up false [] = ".." ∷ []
go_up rooted (s ∷ kept) = if s == ".." then ".." ∷ s ∷ kept else kept

-- What one segment does to those before it: `.` and an empty one are dropped.
unfoldable pub keep_segment : Bool → String → List String → List String
unfolding go_up
keep_segment rooted s kept =
    if is_empty s || s == "." then kept else if s == ".." then go_up rooted kept else s ∷ kept

-- The segments that `filepath.Clean` keeps, the last one first.
unfoldable pub keep : Bool → List String → List String → List String
unfolding keep_segment
keep rooted kept [] = kept
keep rooted kept (s ∷ segments) = keep rooted (keep_segment rooted s kept) segments

unfoldable pub print_path : Bool → List String → String
print_path true segments = "/" <> join_segments segments
print_path false [] = "."
print_path false (s ∷ segments) = join_segments (s ∷ segments)

-- `filepath.Clean`
unfoldable pub clean : String → String
unfolding keep split print_path
clean path =
    if is_empty path
    then "."
    else print_path (is_rooted path) (reverse (keep (is_rooted path) [] (split path)))

-- `filepath.Join` of a directory and a name.
unfoldable pub join : String → String → String
join dir name =
    if is_empty dir
    then if is_empty name then "" else clean name
    else if is_empty name
    then clean dir
    else clean (dir <> ("/" <> name))

-- The test that a member of an archive passes: its path, cleaned, lies in the cleaned directory.
unfoldable pub is_inside : String → String → Bool
is_inside dir target = has_prefix (clean target) (clean dir <> "/")
