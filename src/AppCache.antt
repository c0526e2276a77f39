-- ===== src/AppCache.antt =====
-- The application cache, appcache/cache.go: bounded snapshots that are fenced against commits.
-- Keyed has the map and the recency list, Cache the operations under the lock, Wellformed and
-- Bounds what they keep, Invalidate what a commit removes, System the interleavings of commits and
-- loads, and Coherence what a reader is given.
pub mod Keyed
pub mod Cache
pub mod Wellformed
pub mod Bounds
pub mod Invalidate
pub mod System
pub mod Steps
pub mod Lookups
pub mod Invariant
pub mod Loads
pub mod Commits
pub mod Coherence
