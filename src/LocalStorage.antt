-- ===== src/LocalStorage.antt =====
-- The local storage: a directory of cache files in two to four levels of subdirectories, with
-- counters of their number and size (src/storage/local/LocalStorage.cpp, src/storage/local/util.cpp).
pub mod Levels
pub mod Put
pub mod Subdirs
pub mod Cleaning
pub mod CleanAll
pub mod Automatic
pub mod Totals
