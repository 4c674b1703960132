-- ===== src/Defaults.antt =====
-- Per-action defaults (source/services/Ultravisor-Beacon-ActionDefaults.cjs): the resolution of a
-- row with its cache, and its application to a work item.
-- The queue store's `getActionDefault` and the template of the cache key are parameters.
mod Resolve
mod Apply
pub mod Caching
unfoldable pub use Resolve.*
unfoldable pub use Apply.*
