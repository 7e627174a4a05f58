-- ===== src/Examples.antt =====
-- Runs of the code on small inputs: a cache entry and a result that are stored and opened, a manifest
-- that is filled and searched, texts and stats files that are read.
mod Entries
mod Manifests
mod Results
mod Stats
mod Texts
mod Locks
mod Storage
mod Options
mod Configs
