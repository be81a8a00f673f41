-- ===== src/Source.antt =====
-- internal/source: what a source does to the rows before they are stored.
pub mod Levels
pub mod TextLine
pub mod Aliases
