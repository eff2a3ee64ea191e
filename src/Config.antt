-- ===== src/Config.antt =====
-- internal/config: the configuration's types, its validation, environment substitution and the
-- manager that reloads it.
pub mod Types
pub mod Validation
pub mod Substitute
pub mod Loader
pub mod Manager
