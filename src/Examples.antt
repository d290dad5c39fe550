-- ===== src/Examples.antt =====
-- The theorems at concrete inputs, and small runs of the operations.
mod Stores
mod Resume
mod Storage
mod Monitoring
mod Crawl
mod Catalog
mod Drift
mod Titles
mod Plays
mod Seasons
mod Rows
mod Catalogs
mod Crawls
mod Homes
