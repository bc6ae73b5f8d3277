-- ===== src/Chunker.antt =====
-- app/services/chunker.py: structure-aware chunking over Markdown-shaped text. The blocks are parsed
-- by Chunker/Blocks, held to the size by Chunker/Split and packed by Chunker/Merge.
pub mod Blocks
pub mod Split
pub mod Merge
pub mod Content
pub mod Sizes
mod Tests
use ragr.Prelude.{
  ltb, leb, ◌==◌, if◌then◌else◌, ltb→lt, leb→le, ==_iff, Bool-cases, Option-cases, length, take,
  drop, get_elem?, filter, get_last?, get_last?-concat, any, all, length-append, length-take,
  length-drop, take-append-drop, filter-append, length-filter-le, length-map, All, All-append,
  All-filter, All-take, ℕ, zero, suc, ◌+◌, ◌-◌, ◌*◌, ◌/◌, ◌%◌, ◌^◌, ◌≤◌, ◌<◌, min, max, String, ◌≡◌,
  refl, sym, ap, ◌∙◌, fun_ext, subst, ◌≢◌, ◌↔◌, ◌⊎◌, inl, inr, Bool, true, false, ◌&&◌, ◌||◌, not,
  Option, none, some, List, [], ◌∷◌, ◌++◌, map, append_assoc, append-nil, map-append, arith, str_eq,
  eq_iff, eq_refl,
}
use ragr.Text.{Text, is_empty, strip}
use Blocks.{parse_blocks}
use Split.{enforce_max_size}
use Merge.{ChunkResult, merge_into_chunks}

unfoldable pub chunk_text : Text → ℕ → ℕ → List ChunkResult
chunk_text text chunk_size chunk_overlap =
    if is_empty (strip text)
    then []
    else merge_into_chunks (enforce_max_size (parse_blocks text) chunk_size) chunk_size
        chunk_overlap
