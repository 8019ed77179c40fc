-- ===== src/Component.antt =====
-- The reconciler of an RbdComponent: its manager (controllers/component-mgr/component.go) and the
-- loop over it (controllers/rbdcomponent_controller.go).
pub mod Flow
pub mod Objects
pub mod Status
pub mod Manager
pub mod Reconcile
pub mod Loop
pub mod Quiet
pub mod Stages
pub mod Settled
pub mod Updates
pub mod Keeps
pub mod Store
pub mod Protected
pub mod Counted
