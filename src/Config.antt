-- ===== src/Config.antt =====
-- Configuration: its items, its files and its reading (src/Config.cpp, src/Config.hpp).
pub mod Tables
pub mod Settings
pub mod Values
pub mod Sloppy
pub mod Expand
pub mod Items
pub mod Files
pub mod Read
