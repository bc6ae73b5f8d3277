-- ===== src/Chat.antt =====
-- app/api/chat.py: the history of a session, and what is logged. An amount of money is a number.
pub mod Handler
pub mod Logged
pub mod Replies
pub mod Deleted
mod Tests
use ragr.Prelude.{
  ltb, leb, ◌==◌, if◌then◌else◌, ltb→lt, leb→le, ==_iff, Bool-cases, Option-cases, length, take,
  drop, get_elem?, filter, get_last?, get_last?-concat, any, all, length-append, length-take,
  length-drop, take-append-drop, filter-append, length-filter-le, length-map, All, All-append,
  All-filter, All-take, All-map, filter-All, any-filter, any-last, ℕ, zero, suc, ◌+◌, ◌-◌, ◌*◌, ◌/◌,
  ◌%◌, ◌^◌, ◌≤◌, ◌<◌, min, max, String, ◌≡◌, refl, sym, ap, ap₂, ◌∙◌, fun_ext, subst, ◌≢◌, ◌↔◌, ◌⊎◌,
  inl, inr, Bool, true, false, ◌&&◌, ◌||◌, not, Option, none, some, List, [], ◌∷◌, ◌++◌, map,
  append_assoc, append-nil, map-append, arith, str_eq, eq_iff, eq_refl,
}
use ragr.Text.{Text}
use ragr.Str.{◌+s◌, decimal_str, before, strip_spaces}
use ragr.Models.{RagModel, ContentChunk, truthy}
use ragr.Models.Chat.{User}
use ragr.Models.Conversation.{Conversation, RetrievedChunk, Message}
use ragr.RateLimit.{RateLimiter, is_allowed}
use ragr.Budget.{UsageTable, record_usage, check_budget, estimate_cost, estimate_rerank_cost}
use ragr.Users.{owner_can_use_global_keys}
use ragr.Generation.{GenerationResult}
use ragr.Dependencies.{Reply, allow, http_exception, exception}

-- `_chat_limiter`, and the tables.
pub record Chats : Type 0 where
  pub limiter : RateLimiter
  pub usage : UsageTable
  pub users : List User
  pub conversations : List Conversation
  pub messages : List Message
  pub next_id : ℕ

-- What the code reads of the connection and its headers.
pub record Connection : Type 0 where
  pub host : Option String
  pub cf_connecting_ip : Option String
  pub x_forwarded_for : Option String

abbrev or_text : String → Option String → String
or_text default none = default
or_text default (some s) = s

abbrev or_str : String → String → String
or_str a b = if str_eq a "" then b else a

-- The argument is settings.trusted_proxy_ips.
unfoldable pub resolve_client_ip : List String → Connection → String
resolve_client_ip trusted request =
    let direct_ip = or_text "unknown" request.host in
    let forwarded_ip =
      or_str (or_text "" request.cf_connecting_ip)
        (strip_spaces (before b',' (or_text "" request.x_forwarded_for))) in
    if any (λ ip. str_eq ip direct_ip) trusted then or_str forwarded_ip direct_ip else direct_ip

abbrev not_deleted : Option ℕ → Bool
not_deleted none = true
not_deleted (some _) = false

-- whether a conversation is this model's and this session's, and not deleted
abbrev pub is_session : ℕ → String → Conversation → Bool
is_session model_id session_id c =
    c.model_id == model_id && (str_eq c.session_id session_id && not_deleted c.deleted_at)

-- the join, and the where clauses
abbrev pub is_turn : Chats → ℕ → String → Message → Bool
is_turn st model_id session_id m =
    not_deleted m.deleted_at
    && any (λ c. c.id == m.conversation_id && is_session model_id session_id c) st.conversations

abbrev pub insert_latest : Message → List Message → List Message
insert_latest m [] = m ∷ []
insert_latest m (n ∷ rows) =
    let rest = insert_latest m rows in
    if leb n.created_at m.created_at then m ∷ n ∷ rows else n ∷ rest

-- ORDER BY created_at DESC
abbrev pub order_latest : List Message → List Message
order_latest [] = []
order_latest (m ∷ rows) = insert_latest m (order_latest rows)

-- the turns of rows from the latest to the first, in the order of time
abbrev pub turns_of : List Message → List (String × Text)
turns_of [] = []
turns_of (row ∷ rows) =
    turns_of rows
    ++ (if str_eq row.status "answered"
        then ("user", row.message) ∷ ("assistant", row.response) ∷ []
        else [])

abbrev latest_message : List Message → Option Text
latest_message [] = none
latest_message (row ∷ _) = some row.message

unfoldable pub load_session_history : Chats → RagModel → String → List (String × Text) × Option Text
load_session_history st model session_id =
    let rows =
      take model.history_turns
        (order_latest (filter (is_turn st model.id session_id) st.messages)) in
    (turns_of rows, latest_message rows)

pub record ChunkScore : Type 0 where
  pub chunk_id : ℕ
  pub distance : ℕ
  pub rerank_score : Option ℕ
  pub keyword_rank : Option ℕ
  pub is_neighbor : Bool

abbrev has_rank : Option ℕ → Bool
has_rank none = false
has_rank (some _) = true

abbrev pub retrieval_method : ChunkScore → String
retrieval_method s =
    if s.is_neighbor
    then "neighbor"
    else if ltb s.distance 10000 && has_rank s.keyword_rank
    then "hybrid"
    else if has_rank s.keyword_rank
    then "keyword"
    else "vector"

abbrev logged_score : List ℕ → ChunkScore → RetrievedChunk
logged_score cited s = record {
  chunk_id = s.chunk_id;
  distance = s.distance;
  rerank_score = s.rerank_score;
  keyword_rank = s.keyword_rank;
  retrieval_method = retrieval_method s;
  cited = any (λ i. i == s.chunk_id) cited;
}

abbrev logged_scores : List ChunkScore → List ℕ → Option (List RetrievedChunk)
logged_scores [] cited = none
logged_scores (s ∷ scores) cited = some (map (logged_score cited) (s ∷ scores))

abbrev pub counted : ℕ → Conversation → Conversation
counted id c = if c.id == id then record c { message_count = suc c.message_count } else c

-- a message under the conversation of this id
abbrev pub add_message : Chats → ℕ → ℕ → (ℕ → ℕ → Message) → Chats
add_message st now id message = record st {
  conversations = map (counted id) st.conversations;
  messages = st.messages ++ message st.next_id id ∷ [];
  next_id = suc st.next_id;
}

abbrev pub new_conversation : Chats → RagModel → Text → String → Conversation
new_conversation st model message session_id = record {
  id = st.next_id;
  model_id = model.id;
  session_id = session_id;
  title = take 80 message;
  message_count = 0;
  deleted_at = none;
}

-- whether a conversation has the key of the constraint `uq_conversations_model_session`
abbrev pub has_key : ℕ → String → Conversation → Bool
has_key model_id session_id c = c.model_id == model_id && str_eq c.session_id session_id

-- The state with the session's conversation, and its id; none is an exception. More than one row is one
-- of `scalar_one_or_none`. If there is none, it is created, which the constraint refuses when a deleted
-- conversation has its key.
abbrev pub find_or_create :
    Chats → RagModel → Text → String → List Conversation → Option (Chats × ℕ)
find_or_create st model message session_id (c ∷ []) = some (st, c.id)
find_or_create st model message session_id (_ ∷ _ ∷ _) = none
find_or_create st model message session_id [] =
    if any (has_key model.id session_id) st.conversations
    then none
    else some (
      record st {
        conversations = st.conversations ++ new_conversation st model message session_id ∷ [];
        next_id = suc st.next_id;
      },
      st.next_id,
    )

abbrev add_found : ℕ → (ℕ → ℕ → Message) → Option (Chats × ℕ) → Option Chats
add_found now message none = none
add_found now message (some (st, id)) = some (add_message st now id message)

abbrev pub message_of : RagModel → ℕ → Text → GenerationResult → List ChunkScore → ℕ → ℕ → Message
message_of model now message result scores id conversation_id = record {
  id = id;
  conversation_id = conversation_id;
  model_id = model.id;
  message = message;
  response = result.response;
  status = result.status;
  tokens_in = result.input_tokens;
  tokens_out = result.output_tokens;
  retrieved_chunks = logged_scores scores result.cited;
  created_at = now;
  deleted_at = none;
}

-- `_log_message`, in the month and at the time given, for a session that has an id; none is an exception
unfoldable pub log_message :
    Chats
    → String
    → ℕ
    → RagModel
    → Text
    → GenerationResult
    → String
    → List ChunkScore
    → Option Chats
log_message st month now model message result session_id scores =
    let usage = record_usage st.usage model month result.input_tokens result.output_tokens in
    add_found now (message_of model now message result scores) (
      find_or_create (record st { usage = usage }) model message session_id
        (filter (is_session model.id session_id) st.conversations))
