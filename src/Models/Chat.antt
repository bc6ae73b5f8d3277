-- ===== src/Models/Chat.antt =====
-- app/models/conversation.py, app/models/token_usage.py, app/models/model_api_key.py,
-- app/models/user.py
use ragr.Text.{Text}
use ragr.Prelude.{ℕ, String, Bool, Option}

pub record TokenUsage : Type 0 where
  pub model_id : ℕ
  pub month : String
  pub total_input_tokens : ℕ
  pub total_output_tokens : ℕ
  pub estimated_cost : ℕ

pub record ModelApiKey : Type 0 where
  pub id : ℕ
  pub model_id : ℕ
  pub label : String
  pub key_hash : String
  pub key_prefix : Text
  pub is_active : Bool
  pub last_used_at : Option ℕ

pub record User : Type 0 where
  pub clerk_user_id : String
  pub email : Option String
  pub first_name : Option String
  pub last_name : Option String
  pub allow_global_keys : Bool
