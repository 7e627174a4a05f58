-- ===== src/Manifest.antt =====
-- Manifests: which results there are for a source file, and what the files that it includes must
-- look like for each of them (src/core/Manifest.cpp, src/core/Manifest.hpp).
pub mod Types
pub mod Format
pub mod Update
pub mod Lookup
pub mod Merge
