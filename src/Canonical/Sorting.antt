-- ===== src/Canonical/Sorting.antt =====
-- The order in which the members of an object are visited: `sortStrings` of license.go.
use banyan_hub_sdk.Base.{
  Bool-cases, String, ◌≡◌, refl, inl, inr, Bool, true, false, List, [], ◌∷◌, ◌++◌,
}
use banyan_hub_sdk.Canonical.{string_gt, shift_insert, sort_loop, sort_values}
use banyan_hub_sdk.Canonical.Order.{string_gt-asymmetric}
use mathlib.Core.List.{Permᴰ, reverse_aux}
use mathlib.Core.List.Permᴰ

module _ {ℓ} {A : Type ℓ} (gt : A → A → Bool) where
  -- The first of a list is not smaller, or not greater, than `a`.
  abbrev NotBelow : A → List A → Type 0
  NotBelow a [] = Unit
  NotBelow a (x ∷ xs) = gt a x ≡ false

  abbrev NotAbove : A → List A → Type 0
  NotAbove a [] = Unit
  NotAbove a (x ∷ xs) = gt x a ≡ false

  -- No element of a sorted list is greater than the next one.
  abbrev pub IsSorted : List A → Type 0
  IsSorted [] = Unit
  IsSorted (x ∷ xs) = NotBelow x xs × IsSorted xs

  abbrev IsReversed : List A → Type 0
  IsReversed [] = Unit
  IsReversed (x ∷ xs) = NotAbove x xs × IsReversed xs

  abbrev Joins : List A → List A → Type 0
  Joins [] r = Unit
  Joins (x ∷ l) r = NotBelow x r

  reverse_aux-IsSorted :
      (l r : List A) → IsReversed l → IsSorted r → Joins l r → IsSorted (reverse_aux l r)
  reverse_aux-IsSorted [] r d a k = a
  reverse_aux-IsSorted (x ∷ []) r d a k = (k, a)
  reverse_aux-IsSorted (x ∷ y ∷ l) r (f, d) a k = reverse_aux-IsSorted (y ∷ l) (x ∷ r) d (k, a) f

  shift_insert-Perm : (c : A) (done : List A) → Permᴰ (shift_insert gt c done) (c ∷ done)
  unfolding shift_insert
  shift_insert-Perm c [] = Permᴰ.refl (c ∷ [])
  shift_insert-Perm c (v ∷ done) = elim (Bool-cases (gt v c)) [
    | inl above ↦
        rw above (Permᴰ.trans (Permᴰ.cons refl (shift_insert-Perm c done)) (Permᴰ.swap refl refl))
    | inr not_greater ↦ rw not_greater (Permᴰ.refl (c ∷ v ∷ done))
  ]

  sort_loop-Perm : (done vs : List A) → Permᴰ (sort_loop gt done vs) (done ++ vs)
  unfolding sort_loop
  sort_loop-Perm done [] = Permᴰ.symm (Permᴰ.append-nil done)
  sort_loop-Perm done (v ∷ vs) = Permᴰ.trans (sort_loop-Perm (shift_insert gt v done) vs) (
      Permᴰ.trans (Permᴰ.append_right vs (shift_insert-Perm v done))
        (Permᴰ.symm (Permᴰ.middle v done vs)))

  module _ (asymmetric : (a b : A) → gt a b ≡ true → gt b a ≡ false) where
    shift_insert-NotAbove :
        (c v : A) (done : List A)
        → gt c v ≡ false
        → NotAbove v done
        → NotAbove v (shift_insert gt c done)
    unfolding shift_insert
    shift_insert-NotAbove c v [] g n = g
    shift_insert-NotAbove c v (w ∷ done) g n = elim (Bool-cases (gt w c)) [
      | inl above ↦ rw above n
      | inr not_greater ↦ rw not_greater g
    ]

    shift_insert-IsReversed :
        (c : A) (done : List A) → IsReversed done → IsReversed (shift_insert gt c done)
    unfolding shift_insert
    shift_insert-IsReversed c [] d = (tt, tt)
    shift_insert-IsReversed c (v ∷ done) (f, d) = elim (Bool-cases (gt v c)) [
      | inl above ↦ rw above (
        shift_insert-NotAbove c v done (asymmetric v c above) f,
        shift_insert-IsReversed c done d,
      )
      | inr not_greater ↦ rw not_greater (not_greater, (f, d))
    ]

    sort_loop-IsReversed : (done vs : List A) → IsReversed done → IsReversed (sort_loop gt done vs)
    unfolding sort_loop
    sort_loop-IsReversed done [] d = d
    sort_loop-IsReversed done (v ∷ vs) d =
        sort_loop-IsReversed (shift_insert gt v done) vs (shift_insert-IsReversed v done d)

    ends : (l : List A) → Joins l []
    ends [] = tt
    ends (x ∷ l) = tt

    -- With an asymmetric test the sorted values are in order, and they are the ones that were given.
    pub sort_values-IsSorted :
        (values : List A) → IsSorted (sort_values gt values) × Permᴰ (sort_values gt values) values
    unfolding sort_values
    sort_values-IsSorted values = (
      reverse_aux-IsSorted (sort_loop gt [] values) [] (sort_loop-IsReversed [] values tt) tt
          (ends (sort_loop gt [] values)),
      Permᴰ.trans (Permᴰ.reverse (sort_loop gt [] values)) (sort_loop-Perm [] values),
    )

-- The texts that `sortStrings` leaves are in order, none greater than the next one, and they are
-- the ones it got.
pub sort_values_lem :
    (values : List String)
    → IsSorted string_gt (sort_values string_gt values)
      × Permᴰ (sort_values string_gt values) values
sort_values_lem values = sort_values-IsSorted string_gt string_gt-asymmetric values
