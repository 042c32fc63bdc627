-- ===== src/Updater/Frontend/Paths/Cleaned.antt =====
-- A path that was cleaned is clean already, and so is a path that was joined.
use banyan_hub_sdk.Base.{
  Bool-cases, All, String, ◌<>◌, ◌≡◌, refl, sym, ap, ◌∙◌, inl, inr, true, List, [], ◌∷◌, ◌++◌,
  arith,
}
use banyan_hub_sdk.Base.Text.{is_empty, has_prefix}
use banyan_hub_sdk.Updater.Frontend.Paths.{
  push_char, split, join_segments, is_rooted, keep_segment, keep, print_path, clean, join,
}
use banyan_hub_sdk.Updater.Frontend.Paths.Plain.{LacksSeparator, IsPlain, clean_rooted}
use text.Mathlib.TextLemmas.{nil-append, cons-append}
use mathlib.Core.List.{reverse, reverse_aux, append-nil}

append_separator : (rest : String) → "/" <> rest ≡ String.◌∷◌ "/" rest
append_separator rest = cons-append "/" String.[] rest ∙ ap (String.◌∷◌ "/") (nil-append rest)

split-separator : (rest : String) → split ("/" <> rest) ≡ "" ∷ split rest
unfolding split
split-separator rest = ap split (append_separator rest)

split_lacking :
    (s : String) → LacksSeparator s → (rest : String) → split (s <> ("/" <> rest)) ≡ s ∷ split rest
unfolding split push_char
split_lacking String.[] n rest = ap split (nil-append ("/" <> rest)) ∙ split-separator rest
split_lacking (String.◌∷◌ c s) (h, n) rest =
    ap split (cons-append c s ("/" <> rest)) ∙ rw (h, split_lacking s n rest) refl

split_single : (s : String) → LacksSeparator s → split s ≡ s ∷ []
unfolding split push_char
split_single String.[] n = refl
split_single (String.◌∷◌ c s) (h, n) = rw (h, split_single s n) refl

split-join_segments :
    (s : String) (segments : List String)
    → All IsPlain (s ∷ segments)
    → split (join_segments (s ∷ segments)) ≡ s ∷ segments
split-join_segments s [] (p, h) = split_single s p.3
split-join_segments s (r ∷ segments) (p, h) =
    split_lacking s p.3 (join_segments (r ∷ segments))
    ∙ ap (◌∷◌ s) (split-join_segments r segments h)

keep_segment-IsPlain :
    (s : String) (kept : List String) → IsPlain s → keep_segment true s kept ≡ s ∷ kept
unfolding keep_segment
keep_segment-IsPlain s kept (e, d, u, n) = ground arith

keep-IsPlain :
    (segments kept : List String)
    → All IsPlain segments
    → keep true kept segments ≡ reverse_aux segments kept
unfolding keep
keep-IsPlain [] kept h = refl
keep-IsPlain (s ∷ segments) kept (p, h) =
    rw (keep_segment-IsPlain s kept p) (keep-IsPlain segments (s ∷ kept) h)

reverse_aux-reverse_aux {ℓ} :
    {A : Type ℓ} (xs ys zs : List A)
    → reverse_aux (reverse_aux xs ys) zs ≡ reverse_aux ys (xs ++ zs)
reverse_aux-reverse_aux [] ys zs = refl
reverse_aux-reverse_aux (x ∷ xs) ys zs = reverse_aux-reverse_aux xs (x ∷ ys) zs

reverse_kept :
    (segments : List String) → All IsPlain segments → reverse (keep true [] segments) ≡ segments
reverse_kept segments h =
    ap reverse (keep-IsPlain segments [] h)
    ∙ reverse_aux-reverse_aux segments [] []
    ∙ append-nil segments

-- The text after the root of a cleaned path has the same segments again.
kept_printed :
    (segments : List String)
    → All IsPlain segments
    → reverse (keep true [] (split (join_segments segments))) ≡ segments
unfolding keep keep_segment split
kept_printed [] h = refl
kept_printed (s ∷ segments) h =
    ap (λ l. reverse (keep true [] l)) (split-join_segments s segments h)
    ∙ reverse_kept (s ∷ segments) h

has_prefix-nil : (s : String) → has_prefix s "" ≡ true
unfolding has_prefix
has_prefix-nil String.[] = refl
has_prefix-nil (String.◌∷◌ c s) = refl

is_rooted_separator : (s : String) → is_rooted (String.◌∷◌ "/" s) ≡ true
unfolding has_prefix
is_rooted_separator s = has_prefix-nil s

-- A path that was cleaned is clean.
clean_separator :
    (s : String)
    → clean (String.◌∷◌ "/" s) ≡ "/" <> join_segments (reverse (keep true [] (split s)))
unfolding clean print_path split keep keep_segment has_prefix
clean_separator s = rw (is_rooted_separator s) refl

pub clean_printed :
    (segments : List String)
    → All IsPlain segments
    → clean ("/" <> join_segments segments) ≡ "/" <> join_segments segments
clean_printed segments h =
    ap clean (append_separator (join_segments segments))
    ∙ clean_separator (join_segments segments)
    ∙ ap (λ l. "/" <> join_segments l) (kept_printed segments h)

rooted-append : (dir rest : String) → is_rooted dir ≡ true → is_rooted (dir <> rest) ≡ true
unfolding has_prefix
rooted-append String.[] rest r = cc
rooted-append (String.◌∷◌ c dir) rest r =
    ap is_rooted (cons-append c dir rest)
    ∙ ground (arith, has_prefix-nil (dir <> rest), has_prefix-nil dir)

empty_not_rooted : (dir : String) → is_empty dir ≡ true → is_rooted dir ≡ true → ⊥
unfolding has_prefix
empty_not_rooted String.[] e r = cc
empty_not_rooted (String.◌∷◌ c dir) e r = cc

cleaned :
    (path : String)
    → is_rooted path ≡ true
    → (clean (clean path) ≡ clean path)
      × ((segments : List String) × (clean path ≡ "/" <> join_segments segments)
          × All IsPlain segments)
cleaned path r =
    let (segments, e, h) = clean_rooted path r in
    (ap clean e ∙ clean_printed segments h ∙ sym e, (segments, e, h))

-- What a directory and a name are joined to is a cleaned path, and is a path of plain segments.
pub join_rooted :
    (dir name : String)
    → is_rooted dir ≡ true
    → (clean (join dir name) ≡ join dir name)
      × ((segments : List String) × (join dir name ≡ "/" <> join_segments segments)
          × All IsPlain segments)
unfolding join
join_rooted dir name r = elim (Bool-cases (is_empty dir)) [
  | inl e ↦ absurd (empty_not_rooted dir e r)
  | inr d ↦ elim (Bool-cases (is_empty name)) [
    | inl e ↦ rw (d, e) (cleaned dir r)
    | inr n ↦ rw (d, n) (cleaned (dir <> ("/" <> name)) (rooted-append dir ("/" <> name) r))
  ]
]
