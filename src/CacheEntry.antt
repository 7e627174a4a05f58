-- ===== src/CacheEntry.antt =====
-- Cache entries: a header, a payload that may be compressed, and a checksum
-- (src/core/CacheEntry.cpp, src/core/CacheEntry.hpp, src/core/types.cpp, src/util/zstd.cpp).
pub mod Types
pub mod Header
pub mod Entry
