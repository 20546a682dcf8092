-- ===== src/Surgical.antt =====
-- zenith-vite-plugin/src/surgical.ts.
pub mod Resolve
pub mod Locate
pub mod Matching
pub mod Selectors
pub mod Roundtrip
pub mod Searching
pub mod Components
pub mod Edit
pub mod Removal
pub mod Patch
