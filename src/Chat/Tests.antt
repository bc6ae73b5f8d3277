-- ===== src/Chat/Tests.antt =====
-- Runs of the chat.
use ragr.Prelude.{String, ◌≡◌, refl, Bool, true, false, Option, none, some, List, [], ◌∷◌}
use ragr.Text.{Text, codes, is_space}
use ragr.Str.{before, strip_spaces}
use ragr.Models.{RagModel, ContentChunk}
use ragr.Samples.{model}
use ragr.Models.Conversation.{Conversation}
use ragr.RateLimit.{init}
use ragr.Dependencies.{allow}
use ragr.Chat.{Chats, resolve_client_ip}
use ragr.Chat.Handler.{Retrieved, Generated, Streamed, retrieved, generated, ChatRequest, chat}
use ragr.Chat.Replies.{IsChat, chat-IsChat}
use ragr.Chat.Deleted.{delete_conversation, is_completed, delete_conversation-chat}

proxied :
    resolve_client_ip ("10.0.0.1" ∷ []) (record {
      host = some "10.0.0.1";
      cf_connecting_ip = none;
      x_forwarded_for = some " 203.0.113.7, 10.0.0.9";
    })
    ≡ "203.0.113.7"
unfolding resolve_client_ip before strip_spaces is_space
proxied = refl

abbrev talk : Conversation
talk = record {
  id = 1;
  model_id = 1;
  session_id = "s1";
  title = codes "Hello";
  message_count = 1;
  deleted_at = none;
}

abbrev st : Chats
st = record {
  limiter = init 10 60 100;
  usage = [];
  users = [];
  conversations = talk ∷ record talk { id = 2; session_id = "s2"; deleted_at = some 5 } ∷ [];
  messages = [];
  next_id = 3;
}

abbrev retrieve : RagModel → Text → Option Text → Retrieved
retrieve _ _ _ = retrieved (record { chunks = []; scores = []; rerank_tokens = 0 })

abbrev generate : RagModel → Text → List ContentChunk → List (String × Text) → Generated
generate _ _ _ _ = generated (record {
  response = codes "Hi.";
  status = "answered";
  input_tokens = 10;
  output_tokens = 2;
  cited = [];
  unused = [];
})

abbrev generate_stream : RagModel → Text → List ContentChunk → List (String × Text) → Streamed
generate_stream m t cs turns = record { texts = codes "Hi." ∷ []; end = generate m t cs turns }

abbrev hello : Bool → ChatRequest
hello stream = record {
  message = codes "Hello";
  stream = stream;
  session_id = some "s1";
  history = [];
}

abbrev own_keys : RagModel
own_keys = record model { custom_anthropic_key = some "a"; custom_voyage_key = some "v" }

chat-IsChat_example :
    let done =
      chat retrieve generate generate_stream st "2026-01" 9 "203.0.113.7" own_keys
        (hello true)
        "new" in
    IsChat retrieve generate generate_stream st "2026-01" 9 "203.0.113.7" own_keys
      (hello true)
      "new"
      done.0
      done.1
chat-IsChat_example =
    chat-IsChat retrieve generate generate_stream st "2026-01" 9 "203.0.113.7" own_keys (hello true)
      "new"

gone : (delete_conversation st 8 own_keys 1).1 ≡ allow tt
unfolding delete_conversation
gone = refl

delete_conversation-chat_example :
    let st' = (delete_conversation st 8 own_keys 1).0 in
    is_completed
      (chat retrieve generate generate_stream st' "2026-01" 9 "203.0.113.7" own_keys
        (hello true)
        "new").1
    ≡ false
delete_conversation-chat_example =
    delete_conversation-chat retrieve generate generate_stream st "2026-01" 8 9 "203.0.113.7"
      own_keys (hello true) "new" talk refl gone
