-- ===== src/Tests.antt =====
-- Sample inputs, runs of the model on them, and the theorems at inputs that meet their hypotheses.
mod Samples
mod Filters
mod Matching
mod Requirements
mod Deployments
mod Rollback
mod Status
mod Execution
mod Features
mod Runner
mod Install
mod Logging
mod Policies
mod Copy
