-- ===== src/License/Laws.antt =====
-- What it takes for a lease to be accepted, and that the watermark never goes back.
use banyan_hub_sdk.Base.{
  Bool-cases, ℕ, ◌+◌, ◌≤◌, String, ◌≡◌, refl, ◌↔◌, ◌⊎◌, inl, inr, true, false, List, [], ◌∷◌, arith,
}
use banyan_hub_sdk.Base.Text.{is_empty}
use banyan_hub_sdk.Canonical.{canonical_json}
use banyan_hub_sdk.Errors.{Result, ok, err, Result-cases}
use banyan_hub_sdk.Errors.Api.{Bytes}
use banyan_hub_sdk.License.{
  default_lease_clock_skew, verify_ed25519_digest, check_watermark, check_lease, read_signed_lease,
  parse_and_verify_lease, verify_with_any,
}
use banyan_hub_sdk.Platform.{Platform}
use banyan_hub_sdk.Types.{Lease}

-- The times of a lease, as far as they are readable, lie right for the instant `now`.
pub record InTime (P : Platform) (value : Lease) (now : ℕ) (server_time : ℕ) : Type 0 where
  pub expires_at : ℕ
  pub grace_until : ℕ
  pub expires_parsed : P.parse_time value.expires_at ≡ ok expires_at
  pub grace_parsed : P.parse_time value.grace_until ≡ ok grace_until
  pub server_parsed : P.parse_time value.server_time ≡ ok server_time
  pub not_expired : now ≤ expires_at
  pub within_grace : now ≤ grace_until
  pub not_early : server_time ≤ now + default_lease_clock_skew

-- A watermark that is there is readable, not ahead of the clock by more than the skew, and not ahead
-- of the server's time.
abbrev pub RespectsWatermark : Platform → ℕ → ℕ → String → Type 0
RespectsWatermark P now server_time watermark =
    is_empty watermark ≡ false
    → (t : ℕ) × (P.parse_time watermark ≡ ok t)
      × (t ≤ now + default_lease_clock_skew)
      × (t ≤ server_time)

module _ (P : Platform) where
  watermark_by_parts :
      (now server_time : ℕ) (watermark : String) (w : Result ℕ)
      → P.parse_time watermark ≡ w
      → check_watermark P now server_time watermark ≡ ok tt
      → RespectsWatermark P now server_time watermark
  unfolding check_watermark
  watermark_by_parts now server_time watermark (err e) p h n = ground arith
  watermark_by_parts now server_time watermark (ok t) p h n = (t, p, ground arith, ground arith)

  check_watermark_iff :
      (now server_time : ℕ) (watermark : String)
      → (check_watermark P now server_time watermark ≡ ok tt)
        ↔ RespectsWatermark P now server_time watermark
  check_watermark_iff now server_time watermark =
      (watermark_by_parts now server_time watermark _ refl, back)
    where
      back :
          RespectsWatermark P now server_time watermark
          → check_watermark P now server_time watermark ≡ ok tt
      back r = elim (Bool-cases (is_empty watermark)) [
        | inl e ↦ unfold check_watermark in rw e
        | inr n ↦ let (t, p, a, b) = r n in unfold check_watermark in ground arith
      ]

-- The lease is for this machine, in time, and respects the watermark.
pub record IsAcceptable (P : Platform) (value : Lease) (machine_id : String) (now : ℕ)
    (watermark : String) : Type 0 where
  pub server_time : ℕ
  pub for_machine : value.machine_id ≡ machine_id
  pub in_time : InTime P value now server_time
  pub respects : RespectsWatermark P now server_time watermark

module _ (P : Platform) (value : Lease) (machine_id : String) (now : ℕ) (watermark : String) where
  check_lease_by_parts :
      (e g s : Result ℕ)
      → P.parse_time value.expires_at ≡ e
      → P.parse_time value.grace_until ≡ g
      → P.parse_time value.server_time ≡ s
      → check_lease P value machine_id now watermark ≡ ok tt
      → IsAcceptable P value machine_id now watermark
  unfolding check_lease
  check_lease_by_parts (err e) g s pe pg ps h = ground arith
  check_lease_by_parts (ok e) (err g) s pe pg ps h = ground arith
  check_lease_by_parts (ok e) (ok g) (err s) pe pg ps h = ground arith
  check_lease_by_parts (ok e) (ok g) (ok s) pe pg ps h = record {
    server_time = s;
    for_machine = ground arith;
    in_time = record {
      expires_at = e;
      grace_until = g;
      expires_parsed = pe;
      grace_parsed = pg;
      server_parsed = ps;
      not_expired = ground arith;
      within_grace = ground arith;
      not_early = ground arith;
    };
    respects = (check_watermark_iff P now s watermark).0 (ground arith);
  }

  acceptable-check :
      IsAcceptable P value machine_id now watermark
      → check_lease P value machine_id now watermark ≡ ok tt
  unfolding check_lease
  acceptable-check a =
      ground (arith, (check_watermark_iff P now a.server_time watermark).1 a.respects)

  pub check_lease_iff :
      (check_lease P value machine_id now watermark ≡ ok tt)
      ↔ IsAcceptable P value machine_id now watermark
  check_lease_iff = (check_lease_by_parts _ _ _ refl refl refl, acceptable-check)

-- One of the keys verifies the signature over the digest of the canonical form.
abbrev pub SignedByAny : Platform → List Bytes → Bytes → Bytes → Type 0
SignedByAny P [] digest signature = ⊥
SignedByAny P (key ∷ keys) digest signature =
    (P.ed25519_verify key digest signature ≡ true) ⊎ SignedByAny P keys digest signature

-- What was signed: the canonical form of valid JSON, which reads as the lease.
pub record IsSigned (P : Platform) (raw : Bytes) (signature : String) (public_keys : List Bytes)
    (value : Lease) : Type 0 where
  pub canonical : Bytes
  pub sig : Bytes
  pub valid : P.json_valid raw ≡ true
  pub canonical_form : canonical_json P raw ≡ ok canonical
  pub sig_decoded : P.decode_base64 signature ≡ ok sig
  pub signed : SignedByAny P public_keys (P.sha256 canonical) sig
  pub reads : P.unmarshal_lease canonical ≡ ok value

module _ (P : Platform) where
  verify_with_any_iff :
      (keys : List Bytes) (digest signature : Bytes)
      → (verify_with_any P keys digest signature ≡ ok tt) ↔ SignedByAny P keys digest signature
  unfolding verify_with_any
  verify_with_any_iff [] digest signature = (λ h. cc, λ h. absurd h)
  verify_with_any_iff (key ∷ keys) digest signature =
      ground (arith, verify_with_any_iff keys digest signature)

  pub verify_ed25519_digest-signed :
      (canonical : Bytes) (signature : String) (keys : List Bytes)
      → verify_ed25519_digest P canonical signature keys ≡ ok tt
      → (sig : Bytes) × (P.decode_base64 signature ≡ ok sig)
        × SignedByAny P keys (P.sha256 canonical) sig
  unfolding verify_ed25519_digest
  verify_ed25519_digest-signed canonical signature keys h =
      elim (Result-cases (P.decode_base64 signature)) [
        | inr (x, d) ↦ absurd (ground arith)
        | inl (sig, d) ↦
            (sig, d, (verify_with_any_iff keys (P.sha256 canonical) sig).0 (ground arith))
      ]

module _ (P : Platform) (raw : Bytes) (signature : String) (public_keys : List Bytes) where
  read_signed_lease_by_parts :
      {value : Lease} (c : Result Bytes) (d : Result Bytes)
      → canonical_json P raw ≡ c
      → P.decode_base64 signature ≡ d
      → read_signed_lease P raw signature public_keys ≡ ok value
      → IsSigned P raw signature public_keys value
  unfolding read_signed_lease verify_ed25519_digest
  read_signed_lease_by_parts (err e) d pc pd h = ground arith
  read_signed_lease_by_parts (ok c) (err e) pc pd h = ground arith
  read_signed_lease_by_parts (ok c) (ok d) pc pd h = record {
    canonical = c;
    sig = d;
    valid = ground arith;
    canonical_form = pc;
    sig_decoded = pd;
    signed = (verify_with_any_iff P public_keys (P.sha256 c) d).0 (ground arith);
    reads = ground arith;
  }

  signed-read :
      {value : Lease}
      → IsSigned P raw signature public_keys value
      → read_signed_lease P raw signature public_keys ≡ ok value
  unfolding read_signed_lease verify_ed25519_digest
  signed-read s =
      ground (arith, (verify_with_any_iff P public_keys (P.sha256 s.canonical) s.sig).1 s.signed)

  module _ (machine_id : String) (now : ℕ) (watermark : String) (value : Lease) where
    parse_sound :
        (r : Result Lease)
        → read_signed_lease P raw signature public_keys ≡ r
        → parse_and_verify_lease P raw signature public_keys machine_id now watermark ≡ ok value
        → IsSigned P raw signature public_keys value × IsAcceptable P value machine_id now watermark
    unfolding parse_and_verify_lease
    parse_sound (err x) e h = ground arith
    parse_sound (ok v) e h =
        let same : v ≡ value = ground arith in
        let checked : check_lease P v machine_id now watermark ≡ ok tt = ground arith in
        (
          rw (← same) (read_signed_lease_by_parts _ _ refl refl e),
          rw (← same) ((check_lease_iff P v machine_id now watermark).0 checked),
        )

    -- A lease is accepted exactly when its canonical form is signed by one of the keys and reads as
    -- that lease, it is for this machine, the clock is before its expiry and its grace limit and
    -- not more than the skew behind the server's time or the watermark, and the server's time is
    -- not behind the watermark.
    pub parse_and_verify_lease_iff :
        (parse_and_verify_lease P raw signature public_keys machine_id now watermark ≡ ok value) ↔ (
          IsSigned P raw signature public_keys value
          × IsAcceptable P value machine_id now watermark)
    unfolding parse_and_verify_lease
    parse_and_verify_lease_iff = (
      parse_sound _ refl,
      λ (s, a). rw (signed-read s, (check_lease_iff P value machine_id now watermark).1 a),
    )
