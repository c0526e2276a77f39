-- ===== src/Transport.antt =====
-- Package transport: who may call a route (transport/middlewares.go, transport/router.go).
pub mod Request
pub mod Combinators
pub mod Scopes
pub mod Roles
pub mod Ownership
pub mod Frozen
pub mod CommentAction
pub mod CommentRoute
pub mod States
