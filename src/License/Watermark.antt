-- ===== src/License/Watermark.antt =====
-- The watermark of the server's time, which `acceptLease` raises and which leases are held against.
use banyan_hub_sdk.Base.{
  ltb, Bool-cases, ℕ, ◌≤◌, max, String, ◌≡◌, refl, ap, ◌∙◌, inl, inr, false, List, [], ◌∷◌, arith,
}
use banyan_hub_sdk.Base.Text.{is_empty}
use banyan_hub_sdk.Errors.{Error, Result, ok, err}
use banyan_hub_sdk.License.{max_timestamp, later_timestamp}
use banyan_hub_sdk.Platform.{Platform}

-- `time.Parse` refuses the empty text.
abbrev pub RefusesEmpty : Platform → Type 0
RefusesEmpty P = (e : Error) × (P.parse_time "" ≡ err e)

module _ (P : Platform) (refuses : RefusesEmpty P) where
  parsed-nonempty : (s : String) {t : ℕ} → P.parse_time s ≡ ok t → is_empty s ≡ false
  parsed-nonempty String.[] p = cc (refuses.1)
  parsed-nonempty (String.◌∷◌ c s) p = refl

  -- Where the empty text is no time: of two readable times the later one is kept.
  max_timestamp-max :
      (current candidate : String) {t u : ℕ}
      → P.parse_time current ≡ ok t
      → P.parse_time candidate ≡ ok u
      → P.parse_time (max_timestamp P current candidate) ≡ ok (max t u)
  unfolding max_timestamp later_timestamp
  max_timestamp-max current candidate {t} {u} p q = elim (Bool-cases (ltb t u)) [
    | inl lt ↦ rw (parsed-nonempty current p, p, q, lt) (q ∙ ap ok (ground arith))
    | inr ge ↦ rw (parsed-nonempty current p, p, q, ge) (p ∙ ap ok (ground arith))
  ]

  max_timestamp-unreadable :
      (current candidate : String) {t : ℕ} {e : Error}
      → P.parse_time current ≡ ok t
      → P.parse_time candidate ≡ err e
      → max_timestamp P current candidate ≡ current
  unfolding max_timestamp later_timestamp
  max_timestamp-unreadable current candidate p q = rw (parsed-nonempty current p, p, q)

  raise_by :
      (current candidate : String) (c : Result ℕ) {t : ℕ}
      → P.parse_time current ≡ ok t
      → P.parse_time candidate ≡ c
      → (r : ℕ) × (P.parse_time (max_timestamp P current candidate) ≡ ok r) × (t ≤ r)
  raise_by current candidate (err e) {t} p q =
      (t, rw (max_timestamp-unreadable current candidate p q) p, omega arith)
  raise_by current candidate (ok u) {t} p q =
      (max t u, max_timestamp-max current candidate p q, omega arith)

  -- The watermark after a sequence of accepted server times.
  unfoldable pub raise_all : String → List String → String
  raise_all watermark [] = watermark
  raise_all watermark (s ∷ times) = raise_all (max_timestamp P watermark s) times

  -- Where the empty text is no time: whatever server times come, readable or not, a readable
  -- watermark stays readable and never goes back.
  pub watermark_monotone :
      (watermark : String) (times : List String) {t : ℕ}
      → P.parse_time watermark ≡ ok t
      → (r : ℕ) × (P.parse_time (raise_all watermark times) ≡ ok r) × (t ≤ r)
  unfolding raise_all
  watermark_monotone watermark [] {t} p = (t, p, omega arith)
  watermark_monotone watermark (s ∷ times) p =
      let (m, q, le) = raise_by watermark s _ p refl in
      let (r, last, le') = watermark_monotone (max_timestamp P watermark s) times q in
      (r, last, omega arith)
