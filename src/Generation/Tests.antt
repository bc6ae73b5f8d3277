-- ===== src/Generation/Tests.antt =====
-- An answer, and the same answer as a stream.
use ragr.Prelude.{length, ◌+◌, ◌≡◌, refl, true, not, Option, none, some, List, [], ◌∷◌}
use ragr.Text.{Text, codes, concat, strip, is_space, lstrip, rstrip_by}
use ragr.Models.{ContentChunk}
use ragr.Samples.{model}
use ragr.Generation.{
  text, tool_use, is_status, is_cited, GenerationResult, Request, Response, Stream, completed,
  generate_answer, generate_answer_stream,
}
use ragr.Generation.Streams.{ids_at, generate_answer_stream-eq}

abbrev chunk : ContentChunk
chunk = record {
  id = 2;
  model_id = 1;
  content = codes "Ragr answers.";
  embedding = [];
  source_url = "";
  source_identifier = "intro.md";
  content_type = "markdown";
  metadata = record { heading_path = []; start_offset = 0; end_offset = 13 };
  position = 0;
}

abbrev chunks : List ContentChunk
chunks = chunk ∷ record chunk { id = 3; position = 1 } ∷ []

abbrev response : Response
response = record {
  content =
      text (codes "It ") []
      ∷ text (codes "does. ") (some 1 ∷ none ∷ [])
      ∷ tool_use "set_status" (some "off_topic")
      ∷ [];
  input_tokens = 40;
  output_tokens = 5;
}

abbrev tokens : List Text
tokens = codes "It do" ∷ codes "es. " ∷ []

abbrev create : Request → Option Response
create _ = some response

abbrev stream : Request → Stream
stream _ = record { tokens = tokens; ending = completed (some response) }

answered :
    generate_answer create stream model (codes "Does it?") chunks []
    ≡ some (record {
      response = codes "It does.";
      status = "off_topic";
      input_tokens = 40;
      output_tokens = 5;
      cited = 3 ∷ [];
      unused = 2 ∷ [];
    })
unfolding generate_answer strip is_space lstrip rstrip_by concat
answered = refl

generate_answer_stream-eq_example :
    (result : GenerationResult) × ((generate_answer create stream model (codes "Does it?") chunks []
        ≡ some result)
      × ((generate_answer_stream create stream model (codes "Does it?") chunks []
            ≡ (tokens, some result))
          × ((is_status result.status ≡ true)
              × ((result.cited ≡ ids_at (is_cited (1 ∷ [])) 0 chunks)
                  × ((result.unused ≡ ids_at (λ i. not (is_cited (1 ∷ []) i)) 0 chunks)
                      × (length result.cited + length result.unused ≡ 2))))))
unfolding concat
generate_answer_stream-eq_example =
    generate_answer_stream-eq create stream model (codes "Does it?") chunks [] response tokens refl
      refl refl
