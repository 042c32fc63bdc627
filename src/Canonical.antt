-- ===== src/Canonical.antt =====
-- The canonical form of JSON, which signatures are over: `sortStrings`, `marshalCanonicalRaw` and
-- `canonicalJSON` of license.go.
pub mod Order
pub mod Sorting
use banyan_hub_sdk.Base.{
  nat_eq, if◌then◌else◌, length, ℕ, zero, suc, String, Bool, true, false, not, List, [], ◌∷◌, ◌++◌,
}
use banyan_hub_sdk.Errors.{Error, text, Result, ok, err, ◌>>=◌}
use banyan_hub_sdk.Errors.Api.{Bytes}
use banyan_hub_sdk.Platform.{Platform}
use Prim.Native.String.{compare}
use Prim.Native.Nat.{Ordering}
use mathlib.Core.List.{reverse}

-- `s > t` on Go strings: bytewise.
unfoldable pub string_gt : String → String → Bool
string_gt s t = elim (compare s t) [ Ordering.gt ↦ true | _ ↦ false ]

module _ {ℓ} {A : Type ℓ} (gt : A → A → Bool) where
  -- The inner loop of `sortStrings`: `done` is the sorted prefix, its last element first.
  unfoldable pub shift_insert : A → List A → List A
  shift_insert current [] = current ∷ []
  shift_insert current (v ∷ done) =
      if gt v current then v ∷ shift_insert current done else current ∷ v ∷ done

  unfoldable pub sort_loop : List A → List A → List A
  unfolding shift_insert
  sort_loop done [] = done
  sort_loop done (v ∷ values) = sort_loop (shift_insert v done) values

  -- `sortStrings`
  unfoldable pub sort_values : List A → List A
  unfolding sort_loop
  sort_values values = reverse (sort_loop [] values)

-- The members of an object in the order of its sorted keys, as `marshalCanonicalRaw` visits them.
abbrev pub member_gt : String × Bytes → String × Bytes → Bool
member_gt a b = string_gt a.0 b.0

abbrev join_comma : List Bytes → Bytes
join_comma [] = []
join_comma (x ∷ []) = x
join_comma (x ∷ y ∷ xs) = x ++ (b',' ∷ join_comma (y ∷ xs))

-- Both loops stop at the first child that fails.
unfoldable pub each_ok {ℓ κ} : {A : Type ℓ} {B : Type κ} → (A → Result B) → List A → Result (List B)
each_ok f [] = ok []
each_ok f (x ∷ xs) = do y ← f x; ys ← each_ok f xs; ok (y ∷ ys)

out_of_fuel : Error
out_of_fuel = text "nesting exceeds the fuel"

module _ (P : Platform) where
  member : (Bytes → Result Bytes) → String × Bytes → Result Bytes
  member child (key, value) = do form ← child value; ok (P.marshal_text key ++ (b':' ∷ form))

  canonical_object : (Bytes → Result Bytes) → Bytes → Result Bytes
  unfolding member each_ok sort_values string_gt
  canonical_object child trimmed = do
    object ← P.unmarshal_object trimmed
    members ← each_ok (member child) (sort_values member_gt object)
    ok (b'{' ∷ (join_comma members ++ (b'}' ∷ [])))

  canonical_array : (Bytes → Result Bytes) → Bytes → Result Bytes
  unfolding each_ok
  canonical_array child trimmed = do
    items ← P.unmarshal_array trimmed
    forms ← each_ok child items
    ok (b'[' ∷ (join_comma forms ++ (b']' ∷ [])))

  by_first_byte : (Bytes → Result Bytes) → Bytes → Result Bytes
  unfolding canonical_object canonical_array
  by_first_byte child [] = err (text "empty json")
  by_first_byte child (b ∷ rest) =
      if nat_eq b b'{'
      then canonical_object child (b ∷ rest)
      else if nat_eq b b'['
      then canonical_array child (b ∷ rest)
      else P.json_compact (b ∷ rest)

  -- `marshalCanonicalRaw`; the fuel bounds the depth of nesting.
  unfoldable pub marshal_canonical_raw : ℕ → Bytes → Result Bytes
  unfolding by_first_byte out_of_fuel
  marshal_canonical_raw zero raw = err out_of_fuel
  marshal_canonical_raw (suc fuel) raw =
      by_first_byte (marshal_canonical_raw fuel) (P.trim_bytes raw)

  -- `canonicalJSON`
  unfoldable pub canonical_json : Bytes → Result Bytes
  unfolding marshal_canonical_raw
  canonical_json raw =
      if not (P.json_valid raw)
      then err (text "invalid json")
      else marshal_canonical_raw (suc (length (P.trim_bytes raw))) (P.trim_bytes raw)
