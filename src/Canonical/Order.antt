-- ===== src/Canonical/Order.antt =====
-- Go's `>` on texts is asymmetric.
use banyan_hub_sdk.Base.{ℕ, String, ◌≡◌, refl, sym, ap, ◌∙◌, true, false, arith}
use banyan_hub_sdk.Canonical.{string_gt}
use Prim.Native.Nat.{Ordering, compare as compare_ℕ}
use Prim.Native.Char.{code}
use Prim.Native.String.{compare, then}
use Prim.Native.String.compare

abbrev flip : Ordering → Ordering
flip Ordering.lt = Ordering.gt
flip Ordering.eq = Ordering.eq
flip Ordering.gt = Ordering.lt

compare_ℕ-flip : (m n : ℕ) → compare_ℕ n m ≡ flip (compare_ℕ m n)
compare_ℕ-flip m n = ground arith

then-flip : (o p : Ordering) → then (flip o) (flip p) ≡ flip (then o p)
then-flip Ordering.lt p = refl
then-flip Ordering.eq p = refl
then-flip Ordering.gt p = refl

compare-flip : (s t : String) → compare t s ≡ flip (compare s t)
compare-flip String.[] String.[] = compare.nil-nil ∙ ap flip (sym compare.nil-nil)
compare-flip String.[] (String.◌∷◌ d t) =
    compare.cons-nil d t ∙ ap flip (sym (compare.nil-cons d t))
compare-flip (String.◌∷◌ c s) String.[] =
    compare.nil-cons c s ∙ ap flip (sym (compare.cons-nil c s))
compare-flip (String.◌∷◌ c s) (String.◌∷◌ d t) =
    compare.cons-cons d c t s
    ∙ rw (compare_ℕ-flip (code c) (code d), compare-flip s t)
        (then-flip (compare_ℕ (code c) (code d)) (compare s t))
    ∙ ap flip (sym (compare.cons-cons c d s t))

gt_flipped :
    (o : Ordering)
    → elim o [ Ordering.gt ↦ true | _ ↦ false ] ≡ true
    → elim (flip o) [ Ordering.gt ↦ true | _ ↦ false ] ≡ false
gt_flipped Ordering.lt h = cc
gt_flipped Ordering.eq h = refl
gt_flipped Ordering.gt h = refl

pub string_gt-asymmetric : (s t : String) → string_gt s t ≡ true → string_gt t s ≡ false
unfolding string_gt
string_gt-asymmetric s t h = rw (string_gt, compare-flip s t) (gt_flipped (compare s t) h)
