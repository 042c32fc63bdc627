-- ===== src/License/Online/Stored.antt =====
-- What the store holds after `acceptLease` saved a lease.
use banyan_hub_sdk.Base.{ℕ, String, ◌≡◌, refl, false, some, arith}
use banyan_hub_sdk.Errors.{Result, ok, err}
use banyan_hub_sdk.Errors.Api.{Bytes}
use banyan_hub_sdk.License.{
  canonical_json_from_lease, state_or_empty, accepted_state, accept_lease, save_accepted,
}
use banyan_hub_sdk.Platform.{Platform}
use banyan_hub_sdk.Store.{Identity, Store, snapshot, stamped}
use banyan_hub_sdk.Store.Laws.{save-current}
use banyan_hub_sdk.Types.{Lease, PersistedState}

-- The store holds this lease with the signature, and the lease's canonical form.
pub record IsStored (P : Platform) (value : Lease) (signature : String) (s : Store) : Type 0 where
  pub state : PersistedState
  pub current : s.current ≡ some state
  pub same_lease : state.lease ≡ some value
  pub same_signature : state.lease_signature ≡ signature
  pub same_canonical : canonical_json_from_lease P value ≡ ok state.lease_canonical

module _ (P : Platform) (I : Identity) (now : ℕ) where
  -- A lease that was accepted is the one that the store holds.
  save_accepted-IsStored :
      (value : Lease) (signature : String) (s : Store) (c : Result Bytes)
      → canonical_json_from_lease P value ≡ c
      → (save_accepted P I now value signature false c s).1 ≡ ok tt
      → IsStored P value signature (save_accepted P I now value signature false c s).0
  unfolding save_accepted accepted_state
  save_accepted-IsStored value signature s (err e) c h = absurd (ground arith)
  save_accepted-IsStored value signature s (ok canonical) c h =
      let state =
        accepted_state P I value canonical signature false (state_or_empty (snapshot s)) in
      record {
        state = stamped P now state;
        current = save-current P I now state s h;
        same_lease = refl;
        same_signature = refl;
        same_canonical = c;
      }

  pub accept_lease-IsStored :
      (value : Lease) (signature : String) (s : Store)
      → (accept_lease P I now value signature false s).1 ≡ ok tt
      → IsStored P value signature (accept_lease P I now value signature false s).0
  unfolding accept_lease
  accept_lease-IsStored value signature s h = save_accepted-IsStored value signature s _ refl h
