-- ===== src/Tests.antt =====
-- Concrete runs of the theorems: a toy platform, one lease, and the guard that holds it.
mod Toy
mod Leases
mod Beats
mod Errands
mod Downloads
mod Lifecycles
mod Frontends
mod Requests
mod Calls
