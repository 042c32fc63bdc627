-- ===== src/Binding/Laws.antt =====
-- What is sealed for a lease is read under that lease, and under no other state.
use banyan_hub_sdk.Base.{
  length, take, drop, length-append, take-append, drop-append, ℕ, ◌≤◌, String, ◌<>◌, ◌≡◌, refl, sym,
  ap, ◌∙◌, subst, ◌⊎◌, inl, inr, true, ◌++◌, arith,
}
use banyan_hub_sdk.Binding.{
  Aead, sealing, derive_lease_secret, component_scope, lease_aad, derive_feature_token,
  feature_token_of, feature_token, cipher_of, new_lease_aead, unseal_with, unseal, seal, seal_key,
  token_from, bound_token, open_box, open_with, fill_box, seal_with,
}
use banyan_hub_sdk.Errors.{
  lease_unavailable, hard_binding_unavailable, sentinel_eq, sentinel, is, Result, ok, err, ok-eq,
}
use banyan_hub_sdk.Errors.Api.{Bytes}
use banyan_hub_sdk.Guard.{Guard, check, LeaseState, current_active_lease}
use banyan_hub_sdk.Guard.Leases.{usable_of, lease_unavailable_of}
use banyan_hub_sdk.Platform.{Platform}
use banyan_hub_sdk.Types.{Lease}
use text.Mathlib.TextLemmas.{append_assoc}

module _ (P : Platform) (new_gcm : Bytes → Result Aead) where
  module _ (new_nonce : ℕ → Result Bytes) where
    -- What is documented of a `cipher.AEAD` and of `rand.Read`.
    pub record IsAead : Type 0 where
      pub opens :
          (key : Bytes) (a : Aead) (nonce plain aad : Bytes)
          → new_gcm key ≡ ok a
          → length nonce ≡ a.nonce_size
          → a.open_bytes nonce (a.seal_bytes nonce plain aad) aad ≡ ok plain
      pub fills : (n : ℕ) (nonce : Bytes) → new_nonce n ≡ ok nonce → length nonce ≡ n

    -- The tool and the guard write the same additional data, with different brackets.
    sealed_aad :
        (l : Lease)
        → P.bytes_of ((((l.project_slug <> "|") <> l.tier) <> "|") <> l.lease_id) ≡ lease_aad P l
    unfolding lease_aad component_scope
    sealed_aad l = ap P.bytes_of (
        ap (λ p. p <> l.lease_id) (append_assoc (l.project_slug <> "|") l.tier "|")
        ∙ append_assoc (l.project_slug <> "|") (l.tier <> "|") l.lease_id)

    open_filled :
        (a : Aead) (l : Lease) (plain nonce : Bytes)
        → length nonce ≡ a.nonce_size
        → a.open_bytes nonce (a.seal_bytes nonce plain (lease_aad P l)) (lease_aad P l) ≡ ok plain
        → open_box P new_gcm a l (nonce ++ a.seal_bytes nonce plain (lease_aad P l)) ≡ ok plain
    unfolding open_box
    open_filled a l plain nonce n o =
        let box = a.seal_bytes nonce plain (lease_aad P l) in
        grind
          (arith, sym n, o, take-append nonce box, drop-append nonce box, length-append nonce box)

    module _ (s : LeaseState) (plain box : Bytes) (w : IsAead) where
      open_nonce :
          (key : Bytes) (a : Aead) (nonce : Result Bytes)
          → new_gcm key ≡ ok a
          → new_nonce a.nonce_size ≡ nonce
          → fill_box P new_gcm new_nonce plain (lease_aad P s.lease) a nonce ≡ ok box
          → open_box P new_gcm a s.lease box ≡ ok plain
      unfolding fill_box
      open_nonce key a (err e) k n h = absurd (ground arith)
      open_nonce key a (ok nonce) k n h =
          let size = w.fills a.nonce_size nonce n in
          subst (λ b. open_box P new_gcm a s.lease b ≡ ok plain) (ok-eq h)
            (open_filled a s.lease plain nonce size (w.opens key a nonce plain _ k size))

      open_cipher :
          (key : Bytes) (c : Result Aead)
          → new_gcm key ≡ c
          → seal_with P new_gcm new_nonce plain (lease_aad P s.lease) c ≡ ok box
          → open_with P new_gcm c s.lease box ≡ ok plain
      unfolding seal_with open_with
      open_cipher key (err e) k h = absurd (ground arith)
      open_cipher key (ok a) k h = open_nonce key a _ k refl h

      open_sealed :
          (key : Result Bytes)
          → seal_with P new_gcm new_nonce plain (lease_aad P s.lease) (cipher_of P new_gcm key)
            ≡ ok box
          → open_with P new_gcm (cipher_of P new_gcm key) s.lease box ≡ ok plain
      unfolding seal_with
      open_sealed (err e) h = absurd (ground arith)
      open_sealed (ok key) h = open_cipher key (new_gcm key) refl h

      unseal_sealed :
          seal P new_gcm new_nonce (sealing s.lease) s.lease_signature plain ≡ ok box
          → unseal_with P new_gcm (ok s) box ≡ ok plain
      unfolding seal seal_key sealing unseal_with new_lease_aead derive_lease_secret
      unseal_sealed h = open_sealed (derive_lease_secret P s.lease_signature s.lease) (
          subst
            (λ aad.
              seal_with P new_gcm new_nonce plain aad
                (cipher_of P new_gcm (derive_lease_secret P s.lease_signature s.lease))
              ≡ ok box)
            (sealed_aad s.lease) h)

    -- For a cipher that opens what it sealed under the same nonce and data, and nonces of the size
    -- that was asked for: what the sealing tool made of a text for a lease, `Unseal` opens to that
    -- text on a guard that holds this lease.
    pub unseal-seal :
        (g : Guard) (s : LeaseState) (plain box : Bytes)
        → IsAead
        → current_active_lease g ≡ ok s
        → seal P new_gcm new_nonce (sealing s.lease) s.lease_signature plain ≡ ok box
        → unseal P new_gcm g box ≡ ok plain
    unfolding unseal
    unseal-seal g s plain box w c h = rw c (unseal_sealed s plain box w h)

  -- What an unsealing needs: a usable machine with a stored lease, the secret that is derived from its
  -- signature, and a box that opens under it.
  pub record Opened (g : Guard) (box plain : Bytes) : Type 0 where
    pub s : LeaseState
    pub secret : Bytes
    pub aead : Aead
    pub usable : check g ≡ ok tt
    pub held : current_active_lease g ≡ ok s
    pub derived : derive_lease_secret P s.lease_signature s.lease ≡ ok secret
    pub keyed : new_gcm secret ≡ ok aead
    pub long_enough : aead.nonce_size ≤ length box
    pub opened :
        aead.open_bytes (take aead.nonce_size box) (drop aead.nonce_size box) (lease_aad P s.lease)
        ≡ ok plain

  abbrev pub Unsealed : Guard → Bytes → Result Bytes → Type 0
  Unsealed g box (ok plain) = Opened g box plain
  Unsealed g box (err e) = (e ≡ sentinel lease_unavailable) ⊎ (is e hard_binding_unavailable ≡ true)

  -- What a token is made of.
  pub record TokenOf (g : Guard) (name token : String) : Type 0 where
    pub s : LeaseState
    pub secret : Bytes
    pub usable : check g ≡ ok tt
    pub held : current_active_lease g ≡ ok s
    pub derived : derive_lease_secret P s.lease_signature s.lease ≡ ok secret
    pub printed : token ≡ P.encode_hex (P.hmac secret (P.bytes_of name))

  abbrev pub IsBound : Guard → String → Result String → Type 0
  IsBound g name (ok token) = TokenOf g name token
  IsBound g name (err e) = (e ≡ sentinel lease_unavailable) ⊎ (is e hard_binding_unavailable ≡ true)

  module _ (g : Guard) (name : String) where
    token_of_secret :
        (s : LeaseState) (r : Result Bytes)
        → current_active_lease g ≡ ok s
        → derive_lease_secret P s.lease_signature s.lease ≡ r
        → IsBound g name (bound_token P (token_from P r name))
    unfolding bound_token token_from is sentinel_eq
    token_of_secret s (err e) c d = inr refl
    token_of_secret s (ok secret) c d = record {
      s = s;
      secret = secret;
      usable = usable_of g s c;
      held = c;
      derived = d;
      printed = refl;
    }

    feature_token_of-IsBound :
        (r : Result LeaseState)
        → current_active_lease g ≡ r
        → IsBound g name (feature_token_of P r name)
    unfolding feature_token_of derive_feature_token
    feature_token_of-IsBound (err e) c = inl (lease_unavailable_of g e c)
    feature_token_of-IsBound (ok s) c = token_of_secret s _ c refl

    feature_token-IsBound : IsBound g name (feature_token P g name)
    unfolding feature_token
    feature_token-IsBound = feature_token_of-IsBound (current_active_lease g) refl

  module _ (g : Guard) (box : Bytes) where
    module _ (s : LeaseState) (c : current_active_lease g ≡ ok s) where
      opened_from :
          (secret : Bytes) (a : Aead) (r : Result Bytes)
          → derive_lease_secret P s.lease_signature s.lease ≡ ok secret
          → new_gcm secret ≡ ok a
          → open_box P new_gcm a s.lease box ≡ r
          → Unsealed g box r
      unfolding open_box is sentinel_eq
      opened_from secret a (err e) d k o = inr (ground arith)
      opened_from secret a (ok plain) d k o = record {
        s = s;
        secret = secret;
        aead = a;
        usable = usable_of g s c;
        held = c;
        derived = d;
        keyed = k;
        long_enough = ground arith;
        opened = ground arith;
      }

      opened_cipher :
          (secret : Bytes) (r : Result Aead)
          → derive_lease_secret P s.lease_signature s.lease ≡ ok secret
          → new_gcm secret ≡ r
          → Unsealed g box (open_with P new_gcm r s.lease box)
      unfolding open_with is sentinel_eq
      opened_cipher secret (err e) d k = inr refl
      opened_cipher secret (ok a) d k = opened_from secret a _ d k refl

      opened_secret :
          (r : Result Bytes)
          → derive_lease_secret P s.lease_signature s.lease ≡ r
          → Unsealed g box (open_with P new_gcm (cipher_of P new_gcm r) s.lease box)
      unfolding open_with is sentinel_eq
      opened_secret (err e) d = inr refl
      opened_secret (ok secret) d = opened_cipher secret (new_gcm secret) d refl

    unseal_with-Unsealed :
        (r : Result LeaseState)
        → current_active_lease g ≡ r
        → Unsealed g box (unseal_with P new_gcm r box)
    unfolding unseal_with new_lease_aead
    unseal_with-Unsealed (err e) c = inl (lease_unavailable_of g e c)
    unseal_with-Unsealed (ok s) c = opened_secret s c _ refl

    unseal-Unsealed : Unsealed g box (unseal P new_gcm g box)
    unfolding unseal
    unseal-Unsealed = unseal_with-Unsealed (current_active_lease g) refl

  -- `Unseal` gives a text only on a guard whose `Check` passes and that holds a lease, when the box
  -- is at least as long as a nonce and opens under the key that is derived from the lease's
  -- signature, with the lease's data; `FeatureToken` gives a token only on such a guard, and it is
  -- the HMAC of the name under that key; every other result of the two is the error of a lease that
  -- is not available or one that is `ErrHardBindingUnavailable` to `errors.Is`.
  pub unseal-feature_token :
      (g : Guard) (box : Bytes) (name : String)
      → Unsealed g box (unseal P new_gcm g box) × IsBound g name (feature_token P g name)
  unseal-feature_token g box name = (unseal-Unsealed g box, feature_token-IsBound g name)
