-- ===== src/Chunker/Tests.antt =====
-- Runs of the chunker.
use ragr.Prelude.{All, ◌≡◌, refl, List, [], ◌∷◌, map, arith}
use ragr.Text.{Text, codes, is_space, is_break, lstrip, rstrip_by, strip, join, splitlines}
use ragr.Chunker.Blocks.{parse_blocks}
use ragr.Chunker.Split.{ends_sentence, last_break, enforce_max_size}
use ragr.Chunker.Merge.{ChunkResult, merge_into_chunks, overlap_tail}
use ragr.Text.{squeeze}
use ragr.Chunker.{chunk_text}
use ragr.Chunker.Content.Packing.{chunk_content, chunk_text-sublist, chunk_text-exact}
use ragr.Chunker.Sizes.Headings.{IsHeadingOf}
use ragr.Chunker.Sizes.Chunks.{IsSized, chunk_text-IsSized}
use ragr.Chunker.Sizes.Numbering.{IsNumbered, chunk_text-IsNumbered}
use mathlib.Core.List.{Sublist}

text_methods : Unit {0}
unfolding is_space is_break lstrip rstrip_by strip join splitlines ends_sentence
text_methods = tt

breaks :
    (last_break (codes "One. Two three") ≡ 4)
    × (last_break (codes "two three") ≡ 3)
    × (last_break (codes "three") ≡ 5)
unfolding last_break text_methods
breaks = (refl, refl, refl)

tails :
    (overlap_tail (codes "One. Two three") 11 ≡ codes "Two three")
    × (overlap_tail (codes "One. Two three") 8 ≡ codes "three")
unfolding overlap_tail text_methods
tails = (refl, refl)

abbrev doc : Text
doc = codes "# Top #\n\nSome words. More words here.\n## Sub\n```\n# no\n\nx\n```\n\nEnd"

abbrev texts : List ChunkResult → List Text
texts = map (λ c. c.text)

chunks :
    texts (chunk_text doc 20 12)
    ≡ codes "# Top #\n\nSome words."
      ∷ codes "More words here."
      ∷ codes "## Sub\n\n```\n# no\n\nx\n```"
      ∷ codes "no\n\nx\n```\n\nEnd"
      ∷ []
unfolding chunk_text parse_blocks enforce_max_size merge_into_chunks overlap_tail last_break
    text_methods
chunks = refl

chunk_text-sublist_example : Sublist (squeeze doc) (chunk_content (chunk_text doc 20 12))
chunk_text-sublist_example = chunk_text-sublist doc 20 12

chunk_text-exact_example : chunk_content (chunk_text doc 20 0) ≡ squeeze doc
chunk_text-exact_example = chunk_text-exact doc 20

chunk_text-IsSized_example :
    All (IsSized (IsHeadingOf (parse_blocks doc)) 20) (chunk_text doc 20 12)
chunk_text-IsSized_example = chunk_text-IsSized doc 20 12 (omega arith)

chunk_text-IsNumbered_example : IsNumbered 0 (chunk_text doc 20 12)
chunk_text-IsNumbered_example = chunk_text-IsNumbered doc 20 12
