-- ===== src/Chat/Logged.antt =====
-- What a logged message leaves.
use ragr.Prelude.{
  ◌==◌, Bool-cases, filter, any, any-last, ℕ, suc, String, ◌≡◌, refl, ◌∙◌, inl, inr, Bool, true,
  ◌&&◌, Option, none, some, List, [], ◌∷◌, ◌++◌, map, arith, eq_refl,
}
use ragr.Text.{Text}
use ragr.Models.{RagModel}
use ragr.Models.Conversation.{Conversation, Message}
use ragr.Budget.{record_usage}
use ragr.Generation.{GenerationResult}
use ragr.Chat.{
  Chats, is_session, ChunkScore, message_of, log_message, find_or_create, counted, add_found,
  new_conversation, has_key,
}
use ragr.Chat.Handler.{ChatResponse, reply_of}

-- Everything but the limiter is as before.
abbrev pub SameTables : Chats → Chats → Type 0
SameTables st st' =
    (st'.usage ≡ st.usage)
    × ((st'.users ≡ st.users)
        × ((st'.conversations ≡ st.conversations) × (st'.messages ≡ st.messages)))

-- One message was added, with the answer and its tokens, which the usage of the month counts.
pub record IsLogged (st st' : Chats) (month : String) (model : RagModel) (message : Text)
    (response : ChatResponse) : Type 0 where
  pub added : Message
  pub messages : st'.messages ≡ st.messages ++ added ∷ []
  pub asked : added.message ≡ message
  pub replied : (added.response ≡ response.response) × (added.status ≡ response.status)
  pub tokens : (added.tokens_in ≡ response.tokens_in) × (added.tokens_out ≡ response.tokens_out)
  pub usage : st'.usage ≡ record_usage st.usage model month response.tokens_in response.tokens_out
  pub in_session :
      any
        (λ c. c.id == added.conversation_id && is_session model.id response.session_id c)
        st'.conversations
      ≡ true

-- The rows that `find_or_create` selects, in the list of all.
live_row :
    (m : ℕ) (session_id : String) (all_rows rows : List Conversation) (c : Conversation)
    → filter (is_session m session_id) all_rows ≡ c ∷ rows
    → any (λ d. d.id == c.id && is_session m session_id d) all_rows ≡ true
live_row m session_id [] rows c h = ground (arith, h)
live_row m session_id (d ∷ all_rows) rows c h = elim (Bool-cases (is_session m session_id d)) [
  | inl here ↦ ground (arith, h, here)
  | inr away ↦
      let ih = live_row m session_id all_rows rows c (ground (arith, h, away)) in ground (arith, ih)
]

module _ (m : ℕ) (session_id : String) where
  abbrev is_live : ℕ → Conversation → Bool
  is_live id c = c.id == id && is_session m session_id c

  counted-live :
      (id : ℕ) (rows : List Conversation)
      → any (is_live id) (map (counted id) rows) ≡ any (is_live id) rows
  counted-live id [] = refl
  counted-live id (c ∷ rows) =
      let ih = counted-live id rows in
      elim (Bool-cases (c.id == id)) [
        | inl this ↦ ground (arith, this, ih)
        | inr other ↦ ground (arith, other, ih)
      ]

-- The tables that a logged message leaves, if no exception rolls it back.
abbrev pub WhenLogged : Chats → String → RagModel → Text → ChatResponse → Option Chats → Type 0
WhenLogged st month model message response none = Unit
WhenLogged st month model message response (some st') = IsLogged st st' month model message response

module _ (st : Chats) (month : String) (now : ℕ) (model : RagModel) (message : Text)
    (result : GenerationResult) (session_id : String) (scores : List ChunkScore) (spent : ℕ) where
  abbrev replying : ChatResponse
  replying = reply_of model session_id spent result

  abbrev charged : Chats
  charged = record st {
    usage = record_usage st.usage model month result.input_tokens result.output_tokens;
  }

  found-WhenLogged :
      (rows : List Conversation)
      → filter (is_session model.id session_id) st.conversations ≡ rows
      → WhenLogged st month model message replying (
          add_found now
            (message_of model now message result scores)
            (find_or_create charged model message session_id rows))
  found-WhenLogged [] none_live =
      elim (Bool-cases (any (has_key model.id session_id) st.conversations)) [
        | inl taken ↦ rw taken tt
        | inr free ↦ rw free (record {
          added = message_of model now message result scores (suc st.next_id) st.next_id;
          messages = refl;
          asked = refl;
          replied = (refl, refl);
          tokens = (refl, refl);
          usage = refl;
          in_session =
              counted-live model.id session_id st.next_id
                (st.conversations ++ new_conversation charged model message session_id ∷ [])
              ∙ any-last (is_live model.id session_id st.next_id) st.conversations
                  (new_conversation charged model message session_id)
                  (ground (arith, eq_refl session_id));
        })
      ]
  found-WhenLogged (c ∷ []) live = record {
    added = message_of model now message result scores st.next_id c.id;
    messages = refl;
    asked = refl;
    replied = (refl, refl);
    tokens = (refl, refl);
    usage = refl;
    in_session =
        counted-live model.id session_id c.id st.conversations
        ∙ live_row model.id session_id st.conversations [] c live;
  }
  found-WhenLogged (_ ∷ _ ∷ _) live = tt

  pub log_message-WhenLogged :
      WhenLogged st month model message replying
        (log_message st month now model message result session_id scores)
  unfolding log_message
  log_message-WhenLogged =
      found-WhenLogged (filter (is_session model.id session_id) st.conversations) refl
