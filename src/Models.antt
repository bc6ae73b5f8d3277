-- ===== src/Models.antt =====
-- app/models/: the rows of the database. A row's times are natural numbers; amounts of money are
-- multiples of 10^-8 USD; scores and thresholds are multiples of the least positive double, so that
-- their order is that of the floats. Columns that only Postgres reads are left out: `search_vector`
-- (computed from the content), `ingested_at` and `updated_at` (server defaults).
pub mod Source
pub mod Job
pub mod Chat
pub mod Conversation
use ragr.Prelude.{
  ltb, leb, ◌==◌, if◌then◌else◌, ltb→lt, leb→le, ==_iff, Bool-cases, Option-cases, length, take,
  drop, get_elem?, filter, get_last?, get_last?-concat, any, all, length-append, length-take,
  length-drop, take-append-drop, filter-append, length-filter-le, length-map, All, All-append,
  All-filter, All-take, ℕ, zero, suc, ◌+◌, ◌-◌, ◌*◌, ◌/◌, ◌%◌, ◌^◌, ◌≤◌, ◌<◌, min, max, String, ◌≡◌,
  refl, sym, ap, ap₂, ◌∙◌, fun_ext, subst, ◌≢◌, ◌↔◌, ◌⊎◌, inl, inr, Bool, true, false, ◌&&◌, ◌||◌,
  not, Option, none, some, List, [], ◌∷◌, ◌++◌, map, append_assoc, append-nil, map-append, arith,
  str_eq, eq_iff, eq_refl,
}
use ragr.Text.{Text}

pub record RagModel : Type 0 where
  pub id : ℕ
  pub owner_id : String
  pub name : String
  pub slug : String
  pub description : String
  pub system_prompt : String
  pub chat_theme : Option String
  pub chunk_size : ℕ
  pub chunk_overlap : ℕ
  pub top_k : ℕ
  pub embedding_model : String
  pub generation_model : String
  pub rerank_model : String
  pub rerank_candidates : ℕ
  pub rerank_threshold : ℕ
  pub keyword_search_enabled : Bool
  pub neighbor_radius : ℕ
  pub sample_messages : List String
  pub history_turns : ℕ
  pub max_tokens : ℕ
  pub hosted_chat : Bool
  pub allowed_origins : List String
  pub budget_limit : ℕ
  pub custom_anthropic_key : Option String
  pub custom_voyage_key : Option String
  pub is_active : Bool
  pub deleted_at : Option ℕ

-- the `metadata` of a chunk
pub record ChunkMeta : Type 0 where
  pub heading_path : List Text
  pub start_offset : ℕ
  pub end_offset : ℕ

-- A vector's components are kept as they come from the embedding service, as bit patterns.
abbrev pub Embedding : Type 0
Embedding = List ℕ

pub record ContentChunk : Type 0 where
  pub id : ℕ
  pub model_id : ℕ
  pub content : Text
  pub embedding : Embedding
  pub source_url : String
  pub source_identifier : String
  pub content_type : String
  pub metadata : ChunkMeta
  pub position : ℕ

-- A text that is absent or empty is false.
abbrev pub truthy : Option String → Bool
truthy none = false
truthy (some s) = not (str_eq s "")
