-- ===== src/Guard/Leases.antt =====
-- When a guard has an active lease.
use banyan_hub_sdk.Base.{◌≡◌, arith}
use banyan_hub_sdk.Errors.{lease_unavailable, Error, sentinel, ok, err}
use banyan_hub_sdk.Guard.{Guard, check_state, check, LeaseState, current_active_lease, active_lease}

pub usable_of : (g : Guard) (s : LeaseState) → current_active_lease g ≡ ok s → check g ≡ ok tt
unfolding current_active_lease active_lease check check_state
usable_of g s h = ground arith

pub lease_unavailable_of :
    (g : Guard) (e : Error) → current_active_lease g ≡ err e → e ≡ sentinel lease_unavailable
unfolding current_active_lease active_lease
lease_unavailable_of g e h = ground arith
