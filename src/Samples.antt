-- ===== src/Samples.antt =====
-- A model for the runs in the test modules.
use ragr.Prelude.{true, none, []}
use ragr.Models.{RagModel}

abbrev pub model : RagModel
model = record {
  id = 1;
  owner_id = "user_1";
  name = "Docs";
  slug = "docs";
  description = "";
  system_prompt = "";
  chat_theme = none;
  chunk_size = 1000;
  chunk_overlap = 100;
  top_k = 15;
  embedding_model = "voyage-4-lite";
  generation_model = "claude-haiku-4-5";
  rerank_model = "rerank-2.5-lite";
  rerank_candidates = 60;
  rerank_threshold = 0;
  keyword_search_enabled = true;
  neighbor_radius = 1;
  sample_messages = [];
  history_turns = 10;
  max_tokens = 1024;
  hosted_chat = true;
  allowed_origins = [];
  budget_limit = 5_000_000_000;
  custom_anthropic_key = none;
  custom_voyage_key = none;
  is_active = true;
  deleted_at = none;
}
