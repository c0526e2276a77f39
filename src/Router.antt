-- ===== src/Router.antt =====
-- transport/router.go: the table of routes and how a request is served by one of them. Gates has the
-- wrappers, Routes the data of a route, Pages to Tools the table, and Served what is served.
pub mod Gates
pub mod Routes
pub mod Pages
pub mod Games
pub mod Submissions
pub mod Tools
pub mod Served
pub mod Guarded
pub mod Unfrozen
pub mod AdminPass
