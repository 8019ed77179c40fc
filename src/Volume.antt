-- ===== src/Volume.antt =====
-- controllers/rainbondvolume_controller.go, with controllers/plugin_factory.go, the plugins of
-- controllers/plugin and the types of api/v1alpha1/rainbondvolume_types.go.
pub mod Types
pub mod Env
pub mod Plugins
pub mod Methods
pub mod Loop
pub mod Server
pub mod Ready
pub mod Provision
pub mod Plugged
pub mod Progress
pub mod Quiet
