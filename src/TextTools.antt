-- ===== src/TextTools.antt =====
-- Text on its way into memory (app/infrastructure/text/). A text is the list of its code points.
pub mod Truncate
pub mod Tokens
pub mod Chunks
pub mod Chunker
