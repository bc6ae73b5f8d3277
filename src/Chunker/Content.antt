-- ===== src/Chunker/Content.antt =====
-- No text is lost between the source and the chunks.
pub mod Parsing
pub mod Packing
