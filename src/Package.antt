-- ===== src/Package.antt =====
-- The reconciler of a RainbondPackage (controllers/rainbondpackage_controller.go), which pulls the
-- images of the installation and pushes them into the cluster's image repository.
pub mod Status
pub mod Env
pub mod Docker
pub mod Pull
pub mod Checks
pub mod Handle
pub mod Conditions
pub mod Return
pub mod Progress
pub mod Once
pub mod Pushed
pub mod Phases
pub mod Order
pub mod Steady
pub mod Turns
pub mod Steps
pub mod Moves
pub mod Stored
pub mod Downloads
pub mod Start
