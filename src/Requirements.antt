-- ===== src/Requirements.antt =====
-- connectivity/check/action.go: the flow requirements that an action's expectations come to.
pub mod Inputs
pub mod Egress
pub mod Ingress
pub mod Presence
pub mod Unsupported
pub mod Drops
pub mod AnyDrop
