-- ===== src/Constants.antt =====
-- Package constants: the actions and the roles.
pub mod Actions
pub mod Roles
