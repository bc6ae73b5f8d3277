-- ===== src/Models/Source.antt =====
-- app/models/ingestion_source.py
use ragr.Prelude.{ℕ, String, Bool, true, false, Option}
use ragr.Text.{Text}

-- the values that the services write to `status`
pub data SourceStatus : Type 0 where
  pending crawling complete failed : SourceStatus

abbrev pub is_complete : SourceStatus → Bool
is_complete complete = true
is_complete _ = false

abbrev pub is_crawling : SourceStatus → Bool
is_crawling crawling = true
is_crawling _ = false

pub record IngestionSource : Type 0 where
  pub id : ℕ
  pub model_id : ℕ
  pub source_identifier : String
  pub content_hash : String
  pub chunk_count : ℕ
  pub source_url : String
  pub content_type : String
  pub status : SourceStatus
  pub embedding_cost : ℕ
  pub raw_content : Option Text
  pub status_detail : Option String
