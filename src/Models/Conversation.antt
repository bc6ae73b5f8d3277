-- ===== src/Models/Conversation.antt =====
-- app/models/conversation.py
use ragr.Prelude.{ℕ, String, Bool, Option, List}
use ragr.Text.{Text}

pub record Conversation : Type 0 where
  pub id : ℕ
  pub model_id : ℕ
  pub session_id : String
  pub title : Text
  pub message_count : ℕ
  pub deleted_at : Option ℕ

-- an entry of `retrieved_chunks`; distances and scores are multiples of 10^-4
pub record RetrievedChunk : Type 0 where
  pub chunk_id : ℕ
  pub distance : ℕ
  pub rerank_score : Option ℕ
  pub keyword_rank : Option ℕ
  pub retrieval_method : String
  pub cited : Bool

pub record Message : Type 0 where
  pub id : ℕ
  pub conversation_id : ℕ
  pub model_id : ℕ
  pub message : Text
  pub response : Text
  pub status : String
  pub tokens_in : ℕ
  pub tokens_out : ℕ
  pub retrieved_chunks : Option (List RetrievedChunk)
  pub created_at : ℕ
  pub deleted_at : Option ℕ
