-- ===== src/Handlers.antt =====
-- controllers/handler: what the handlers of the components share (common.go, errors.go, uitls.go),
-- their prerequisites (`Before`) and their claims. The other objects are literals and are left out.
pub mod Env
pub mod Common
pub mod Before
pub mod Classes
pub mod Claims
pub mod Found
pub mod Ready
pub mod Avoids
pub mod Steps
pub mod Ignored
