-- ===== src/Tests.antt =====
-- Tests: the theorems at concrete inputs, with concrete libraries in the place of the parameters.
pub mod Library
pub mod Filters
pub mod Stores
pub mod Sources
pub mod Subscribers
pub mod Rows
pub mod Requests
pub mod Columns
pub mod Servers
