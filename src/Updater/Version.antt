-- ===== src/Updater/Version.antt =====
-- `isStrictlyNewerVersion` of updater.go, over the versions of Masterminds/semver.
use banyan_hub_sdk.Base.{
  Bool-cases, string_eq, ◌==◌, String, ◌≡◌, inl, inr, Bool, true, false, not, ◌&&◌, arith,
}
use banyan_hub_sdk.Base.Text.{trim_space, is_empty, trim_prefix}
use banyan_hub_sdk.Errors.{sentinel_eq, Error, Result, ok, err}
use banyan_hub_sdk.Types.{state_eq}

-- What the updater uses of github.com/Masterminds/semver.
pub record Semver : Type 1 where
  pub Version : Type 0
  pub new_version : String → Result Version
  pub greater_than : Version → Version → Bool

-- Its documented order: a version is not greater than itself, and the order is transitive.
pub record IsOrder (V : Semver) : Type 0 where
  pub irreflexive : (v : V.Version) → V.greater_than v v ≡ false
  pub transitive :
      (a b c : V.Version)
      → V.greater_than a b ≡ true
      → V.greater_than b c ≡ true
      → V.greater_than a c ≡ true

module _ (V : Semver) where
  unfoldable pub read_version : String → Result V.Version
  read_version s = V.new_version (trim_space (trim_prefix s "v"))

  compare_versions : String → String → Result V.Version → Result V.Version → Bool
  compare_versions current target (ok c) (ok t) = V.greater_than t c
  compare_versions current target (ok c) (err e) = not (is_empty target) && not (target == current)
  compare_versions current target (err e) _ = not (is_empty target) && not (target == current)

  -- `isStrictlyNewerVersion`
  unfoldable pub is_strictly_newer_version : String → String → Bool
  unfolding compare_versions
  is_strictly_newer_version current target =
      compare_versions current target (read_version current) (read_version target)

  same_text : (s : String) (r : Result V.Version) → IsOrder V → compare_versions s s r r ≡ false
  unfolding compare_versions
  same_text s (ok v) O = O.irreflexive v
  same_text s (err e) O = ground arith

  back_and_forth :
      (s t : String) (a b : Result V.Version) {v w : V.Version}
      → IsOrder V
      → a ≡ ok v
      → b ≡ ok w
      → compare_versions s t a b ≡ true
      → compare_versions t s b a ≡ false
  unfolding compare_versions
  back_and_forth s t (ok a) (ok b) O p q h = elim (Bool-cases (V.greater_than a b)) [
    | inl e ↦ cc (O.transitive b a b h e, O.irreflexive b)
    | inr n ↦ n
  ]
  back_and_forth s t (err e) b O p q h = cc
  back_and_forth s t (ok a) (err e) O p q h = cc

  -- For an irreflexive and transitive order of versions: a version is never newer than itself,
  -- readable or not; and of two readable versions, if the first may be updated to the second, the
  -- second may not be updated to the first.
  is_strictly_newer_version_order :
      IsOrder V
      → ((s : String) → is_strictly_newer_version s s ≡ false)
        × ((s t : String) (v w : V.Version)
            → read_version s ≡ ok v
            → read_version t ≡ ok w
            → is_strictly_newer_version s t ≡ true
            → is_strictly_newer_version t s ≡ false)
  unfolding is_strictly_newer_version
  is_strictly_newer_version_order O = (
    λ s. same_text s (read_version s) O,
    λ s t v w p q h. back_and_forth s t (read_version s) (read_version t) O p q h,
  )

  -- Where one of the versions cannot be read, as at the start with `unknown`, every other text that is
  -- not empty counts as newer.
  pub unreadable_accepts_any :
      (current target : String) {e : Error}
      → read_version current ≡ err e
      → is_strictly_newer_version current target
        ≡ (not (is_empty target) && not (target == current))
  unfolding is_strictly_newer_version compare_versions
  unreadable_accepts_any current target h = rw h
