-- ===== src/Chat/Handler.antt =====
-- app/api/chat.py: the guards of a chat request, its reply, and the stream of its events. The retrieval
-- and the generation are arguments. A stream that its client leaves is not modelled.
use ragr.Prelude.{
  ◌==◌, if◌then◌else◌, filter, get_last?, ℕ, ◌+◌, String, Bool, true, false, ◌&&◌, ◌||◌, not,
  Option, none, some, List, [], ◌∷◌, ◌++◌, map, str_eq,
}
use ragr.Text.{Text}
use ragr.Str.{◌+s◌, decimal_str}
use ragr.Models.{RagModel, ContentChunk, truthy}
use ragr.RateLimit.{is_allowed}
use ragr.Budget.{check_budget, estimate_cost, estimate_rerank_cost}
use ragr.Users.{owner_can_use_global_keys}
use ragr.Generation.{GenerationResult}
use ragr.Dependencies.{Reply, allow, http_exception, exception}
use ragr.Chat.{Chats, or_text, or_str, load_session_history, ChunkScore, log_message}

pub record Retrieval : Type 0 where
  pub chunks : List ContentChunk
  pub scores : List ChunkScore
  pub rerank_tokens : ℕ

pub data Retrieved : Type 0 where
  retrieved : Retrieval → Retrieved
  timeout unavailable : Retrieved

-- An answer, an APIStatusError with its status, or another exception.
pub data Generated : Type 0 where
  generated : GenerationResult → Generated
  status_error : ℕ → Generated
  failed : Generated

-- What `generate_answer_stream` does: it yields texts, then its result, unless an exception ends it.
pub record Streamed : Type 0 where
  pub texts : List Text
  pub end : Generated

pub record ChatRequest : Type 0 where
  pub message : Text
  pub stream : Bool
  pub session_id : Option String
  pub history : List (String × Text)

pub record ChatResponse : Type 0 where
  pub response : Text
  pub status : String
  pub session_id : String
  pub tokens_in : ℕ
  pub tokens_out : ℕ
  pub cost : ℕ

abbrev no_history : List (String × Text) → Bool
no_history [] = true
no_history (_ ∷ _) = false

abbrev content_of : Option (String × Text) → Option Text
content_of none = none
content_of (some m) = some m.1

-- The history, and the last message of the user.
unfoldable pub history_of :
    Chats → RagModel → ChatRequest → String → List (String × Text) × Option Text
unfolding load_session_history
history_of st model body session_id =
    if truthy body.session_id || no_history body.history
    then load_session_history st model session_id
    else (
      body.history,
      content_of (get_last? (filter (λ (m : String × Text). str_eq m.0 "user") body.history)),
    )

abbrev pub reply_of : RagModel → String → ℕ → GenerationResult → ChatResponse
reply_of model session_id rerank_tokens result = record {
  response = result.response;
  status = result.status;
  session_id = session_id;
  tokens_in = result.input_tokens;
  tokens_out = result.output_tokens;
  cost =
      estimate_cost model.generation_model result.input_tokens result.output_tokens
      + estimate_rerank_cost model.rerank_model rerank_tokens;
}

-- an event of a stream: a text, the last one with the result, or the last one with an error
pub data Event : Type 0 where
  text : Text → Event
  done : ChatResponse → Event
  error : String → Event

pub data ChatReply : Type 0 where
  answer : ChatResponse → ChatReply
  event_stream : List Event → ChatReply

-- an exception rolls the transaction back
abbrev pub committed : Chats → ChatResponse → Option Chats → Chats × Reply ChatReply
committed st response none = (st, exception)
committed st response (some st') = (st', allow (answer response))

-- An exception of the log ends the stream.
abbrev pub stream_logged : Chats → ChatResponse → Option Chats → Chats × Event
stream_logged st response none = (st, error "An unexpected error occurred. Please try again.")
stream_logged st response (some st') = (st', done response)

abbrev pub overloaded : String
overloaded = "AI provider is temporarily overloaded. Please try again."

-- the tables and the last event
unfoldable pub stream_end :
    Chats → String → ℕ → RagModel → Text → String → Retrieval → Generated → Chats × Event
unfolding log_message
stream_end st month now model message session_id r (generated result) =
    stream_logged st (reply_of model session_id r.rerank_tokens result)
      (log_message st month now model message result session_id r.scores)
stream_end st month now model message session_id r (status_error code) = (
  st,
  error (
      if code == 529
      then overloaded
      else "AI provider error (" +s (decimal_str code +s "). Please try again.")),
)
stream_end st month now model message session_id r failed =
    (st, error "An unexpected error occurred. Please try again.")

-- `_stream_response`, to its end, with no other request in between
unfoldable pub stream_response :
    Chats → String → ℕ → RagModel → Text → String → Retrieval → Streamed → Chats × List Event
unfolding stream_end
stream_response st month now model message session_id r streamed =
    let last = stream_end st month now model message session_id r streamed.end in
    (last.0, map text streamed.texts ++ last.1 ∷ [])

abbrev pub needs_platform_key : RagModel → Bool
needs_platform_key model =
    not (truthy model.custom_anthropic_key) || not (truthy model.custom_voyage_key)

abbrev pub session_of : ChatRequest → String → String
session_of body new_id = or_str (or_text "" body.session_id) new_id

module _ (retrieve : RagModel → Text → Option Text → Retrieved)
    (generate : RagModel → Text → List ContentChunk → List (String × Text) → Generated)
    (generate_stream : RagModel → Text → List ContentChunk → List (String × Text) → Streamed) where
  abbrev pub logged :
      Chats
      → String
      → ℕ
      → RagModel
      → Text
      → String
      → Retrieval
      → Generated
      → Chats × Reply ChatReply
  logged st month now model message session_id r (status_error code) =
      if code == 529 then (st, http_exception 503 overloaded) else (st, exception)
  logged st month now model message session_id r failed = (st, exception)
  logged st month now model message session_id r (generated result) =
      committed st (reply_of model session_id r.rerank_tokens result)
        (log_message st month now model message result session_id r.scores)

  abbrev pub streamed :
      Chats → String → ℕ → RagModel → Text → String → Retrieval → Streamed → Chats × Reply ChatReply
  streamed st month now model message session_id r s =
      let sent = stream_response st month now model message session_id r s in
      (sent.0, allow (event_stream sent.1))

  abbrev pub answered :
      Chats
      → String
      → ℕ
      → RagModel
      → ChatRequest
      → String
      → List (String × Text)
      → Retrieved
      → Chats × Reply ChatReply
  answered st month now model body session_id history timeout =
      (st, http_exception 503 "Embedding service timed out. Please try again.")
  answered st month now model body session_id history unavailable =
      (st, http_exception 503 "Embedding service unavailable. Please try again.")
  answered st month now model body session_id history (retrieved r) =
      if body.stream
      then streamed st month now model body.message session_id r
          (generate_stream model body.message r.chunks history)
      else logged st month now model body.message session_id r
          (generate model body.message r.chunks history)

  -- `new_id` is the session's id if the request has none.
  unfoldable pub chat :
      Chats → String → ℕ → String → RagModel → ChatRequest → String → Chats × Reply ChatReply
  unfolding history_of log_message stream_response
  chat st month now client_ip model body new_id =
      let limit = is_allowed st.limiter now (decimal_str model.id +s (":" +s client_ip)) in
      let st' : Chats = record st { limiter = limit.0 } in
      let session_id = session_of body new_id in
      let (history, prev_user) = history_of st' model body session_id in
      if not limit.1
      then (st', http_exception 429 "Rate limit exceeded. Please wait before trying again.")
      else if not (check_budget st.usage model month)
      then (st', http_exception 429 "Model has exceeded its monthly budget")
      else if needs_platform_key model && not (owner_can_use_global_keys st.users model.owner_id)
      then (st', http_exception 403 "Model owner is not approved to use the platform's API keys.")
      else answered st' month now model body session_id history
          (retrieve model body.message prev_user)
