-- ===== src/Examples.antt =====
-- Concrete runs: each states a theorem at an input where its hypotheses hold.
mod Billing
mod Data
mod Issues
mod Leases
mod Licenses
mod Machines
mod Policies
mod Rules
mod Authors
