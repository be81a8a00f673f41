-- ===== src/Store.antt =====
-- internal/store: the in-memory log engine.
pub mod Bitmap
pub mod Types
pub mod Arena
pub mod Intern
pub mod Blob
pub mod Column
pub mod Ring
pub mod Query
pub mod Subscribers
