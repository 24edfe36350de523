-- ===== src/Examples.antt =====
-- Runs of the models of app/services, app/runtime and app/repositories on concrete inputs.
mod Agents
mod Planes
mod Recoveries
mod Recordings
mod Approvals
mod Policies
mod Grants
mod Projection
mod Sessions
mod Receipts
mod Registrations
