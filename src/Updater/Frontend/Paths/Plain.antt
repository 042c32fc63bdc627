-- ===== src/Updater/Frontend/Paths/Plain.antt =====
-- A cleaned rooted path has plain segments only.
use banyan_hub_sdk.Base.{
  Bool-cases, string_eq, ◌==◌, All, String, ◌<>◌, ◌≡◌, refl, ◌≢◌, inl, inr, true, false, ◌||◌, List,
  [], ◌∷◌, arith,
}
use banyan_hub_sdk.Base.Text.{is_empty, has_prefix}
use banyan_hub_sdk.Errors.{sentinel_eq}
use banyan_hub_sdk.Types.{state_eq}
use banyan_hub_sdk.Updater.Frontend.Paths.{
  is_separator, push_char, split, join_segments, is_rooted, go_up, keep_segment, keep, print_path,
  clean,
}
use Prim.Native.Char.{Char}
use mathlib.Core.Logic.{if_pos, if_neg}
use mathlib.Core.List.{reverse, reverse_aux}

-- No separator in a text.
abbrev pub LacksSeparator : String → Type 0
LacksSeparator String.[] = Unit
LacksSeparator (String.◌∷◌ c s) = (is_separator c ≡ false) × LacksSeparator s

-- A segment that names an entry of a directory, and no way up.
abbrev pub IsPlain : String → Type 0
IsPlain s = (is_empty s ≡ false) × (s ≢ ".") × (s ≢ "..") × LacksSeparator s

push_char-All :
    (c : Char) (segments : List String)
    → is_separator c ≡ false
    → All LacksSeparator segments
    → All LacksSeparator (push_char c segments)
unfolding push_char
push_char-All c [] n h = ((n, tt), tt)
push_char-All c (s ∷ segments) n (hs, h) = ((n, hs), h)

split-All : (s : String) → All LacksSeparator (split s)
unfolding split
split-All String.[] = (tt, tt)
split-All (String.◌∷◌ c s) = elim (Bool-cases (is_separator c)) [
  | inl sep ↦ rw sep (tt, split-All s)
  | inr n ↦ rw n (push_char-All c (split s) n (split-All s))
]

go_up-All : (kept : List String) → All IsPlain kept → All IsPlain (go_up true kept)
unfolding go_up
go_up-All [] h = tt
go_up-All (s ∷ kept) (p, h) = rw (if_neg _ (p.2)) h

keep_segment-All :
    (s : String) (kept : List String)
    → LacksSeparator s
    → All IsPlain kept
    → All IsPlain (keep_segment true s kept)
unfolding keep_segment
keep_segment-All s kept n k = elim (Bool-cases (is_empty s || s == ".")) [
  | inl dropped ↦ rw dropped k
  | inr named ↦ elim (string_eq.dec s "..") [
    | yes up ↦ rw (named, if_pos _ up) (go_up-All kept k)
    | no other ↦ rw (named, if_neg _ other) ((ground arith, ground arith, other, n), k)
  ]
]

keep-All :
    (segments kept : List String)
    → All LacksSeparator segments
    → All IsPlain kept
    → All IsPlain (keep true kept segments)
unfolding keep
keep-All [] kept h k = k
keep-All (s ∷ segments) kept (n, h) k =
    keep-All segments (keep_segment true s kept) h (keep_segment-All s kept n k)

reverse_aux-All {ℓ κ} :
    {A : Type ℓ} (Q : A → Type κ) (xs ys : List A) → All Q xs → All Q ys → All Q (reverse_aux xs ys)
reverse_aux-All Q [] ys h k = k
reverse_aux-All Q (x ∷ xs) ys (p, h) k = reverse_aux-All Q xs (x ∷ ys) h (p, k)

-- A rooted path is cleaned to plain segments.
pub clean_rooted :
    (path : String)
    → is_rooted path ≡ true
    → (segments : List String) × (clean path ≡ "/" <> join_segments segments) × All IsPlain segments
unfolding clean print_path
clean_rooted String.[] r = unfold has_prefix in cc
clean_rooted (String.◌∷◌ c path) r = rw r (
  reverse (keep true [] (split (String.◌∷◌ c path))),
  refl,
  reverse_aux-All IsPlain (keep true [] (split (String.◌∷◌ c path))) []
      (keep-All (split (String.◌∷◌ c path)) [] (split-All (String.◌∷◌ c path)) tt) tt,
)
