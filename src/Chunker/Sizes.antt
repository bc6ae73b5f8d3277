-- ===== src/Chunker/Sizes.antt =====
-- How large the pieces and the chunks are, and how the chunks are numbered.
pub mod Pieces
pub mod Headings
pub mod Chunks
pub mod Numbering
