-- ===== src/Models/Job.antt =====
-- app/models/ingestion_job.py
use ragr.Prelude.{ℕ, String, Bool, true, false, Option, none, List}

pub data JobStatus : Type 0 where
  pending running complete failed : JobStatus

abbrev pub is_pending : JobStatus → Bool
is_pending pending = true
is_pending _ = false

abbrev pub is_running : JobStatus → Bool
is_running running = true
is_running _ = false

-- The keys of the JSON object `job_params` that the services read and write.
pub record JobParams : Type 0 where
  pub url : Option String
  pub source_identifier : Option String
  pub content_type : Option String
  pub object_key : Option String
  pub filename : Option String
  pub max_pages : Option ℕ
  pub max_depth : Option ℕ
  pub prefix : Option String
  pub exclude_patterns : Option (List String)
  pub parent_job_id : Option ℕ

-- `{}`
abbrev pub no_params : JobParams
no_params = record {
  url = none;
  source_identifier = none;
  content_type = none;
  object_key = none;
  filename = none;
  max_pages = none;
  max_depth = none;
  prefix = none;
  exclude_patterns = none;
  parent_job_id = none;
}

pub record IngestionJob : Type 0 where
  pub id : ℕ
  pub model_id : ℕ
  pub job_type : String
  pub job_params : JobParams
  pub status : JobStatus
  pub attempts : ℕ
  pub max_attempts : ℕ
  pub error : Option String
  pub claimed_at : Option ℕ
  pub created_at : ℕ
  pub completed_at : Option ℕ
