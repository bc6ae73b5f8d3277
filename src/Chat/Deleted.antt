-- ===== src/Chat/Deleted.antt =====
-- app/api/admin.py: `delete_conversation`, and what a chat of its session meets afterwards.
use ragr.Prelude.{
  ◌==◌, if◌then◌else◌, Bool-cases, filter, any, All, ℕ, String, ◌≡◌, refl, sym, ap, ◌∙◌, subst, inl,
  inr, Bool, true, false, ◌&&◌, not, Option, none, some, List, [], ◌∷◌, ◌++◌, map, arith,
}
use ragr.Text.{Text}
use ragr.Models.{RagModel, ContentChunk}
use ragr.Models.Conversation.{Conversation, Message}
use ragr.Generation.{GenerationResult}
use ragr.RateLimit.{is_allowed}
use ragr.Budget.{check_budget}
use ragr.Users.{owner_can_use_global_keys}
use ragr.Dependencies.{Reply, allow, http_exception, exception}
use ragr.Chat.{Chats, not_deleted, is_session, has_key, ChunkScore, log_message}
use ragr.Chat.Handler.{
  Retrieved, Generated, Streamed, retrieved, timeout, unavailable, generated, status_error, failed,
  Retrieval, ChatRequest, ChatReply, answer, event_stream, Event, text, done, session_of,
  needs_platform_key, answered, logged, stream_end, stream_response, chat,
}
use ragr.Chat.Replies.{chat_key, limited}

-- the row of the select, by id and model
abbrev pub is_conversation : ℕ → ℕ → Conversation → Bool
is_conversation model_id id c = c.id == id && (c.model_id == model_id && not_deleted c.deleted_at)

abbrev deleted : ℕ → Conversation → Conversation
deleted now c = record c { deleted_at = some now }

abbrev delete_message : ℕ → ℕ → Message → Message
delete_message now id m =
    if m.conversation_id == id && not_deleted m.deleted_at
    then record m { deleted_at = some now }
    else m

abbrev delete_found : Chats → ℕ → ℕ → ℕ → List Conversation → Chats × Reply (Unit {0})
delete_found st now model_id id [] = (st, http_exception 404 "Conversation not found")
delete_found st now model_id id (_ ∷ _ ∷ _) = (st, exception)
delete_found st now model_id id (_ ∷ []) = (
  record st {
    conversations =
        map (λ c. if is_conversation model_id id c then deleted now c else c) st.conversations;
    messages = map (delete_message now id) st.messages;
  },
  allow tt,
)

unfoldable pub delete_conversation : Chats → ℕ → RagModel → ℕ → Chats × Reply (Unit {0})
delete_conversation st now model id =
    delete_found st now model.id id (filter (is_conversation model.id id) st.conversations)

abbrev is_done : Event → Bool
is_done (done _) = true
is_done _ = false

-- Whether a reply is an answer, or a stream with the event `done`.
abbrev pub is_completed : Reply ChatReply → Bool
is_completed (allow (answer _)) = true
is_completed (allow (event_stream events)) = any is_done events
is_completed _ = false

unfinished :
    (texts : List Text) (last : Event)
    → is_done last ≡ false
    → any is_done (map text texts ++ last ∷ []) ≡ false
unfinished [] last h = ground (arith, h)
unfinished (t ∷ texts) last h = unfinished texts last h

module _ (retrieve : RagModel → Text → Option Text → Retrieved)
    (generate : RagModel → Text → List ContentChunk → List (String × Text) → Generated)
    (generate_stream : RagModel → Text → List ContentChunk → List (String × Text) → Streamed)
    (st : Chats) (month : String) (now : ℕ) (model : RagModel) (session_id : String)
    (none_live : filter (is_session model.id session_id) st.conversations ≡ [])
    (taken : any (has_key model.id session_id) st.conversations ≡ true) where
  log_message-none :
      (message : Text) (result : GenerationResult) (scores : List ChunkScore)
      → log_message st month now model message result session_id scores ≡ none
  unfolding log_message
  log_message-none message result scores = rw (none_live, taken) refl

  logged-is_completed :
      (message : Text) (r : Retrieval) (g : Generated)
      → is_completed
          (logged retrieve generate generate_stream st month now model message session_id r g).1
        ≡ false
  logged-is_completed message r (status_error code) = elim (Bool-cases (code == 529)) [
    | inl busy ↦ rw busy refl
    | inr other ↦ rw other refl
  ]
  logged-is_completed message r failed = refl
  logged-is_completed message r (generated result) =
      rw (log_message-none message result r.scores) refl

  stream_end-is_done :
      (message : Text) (r : Retrieval) (g : Generated)
      → is_done (stream_end st month now model message session_id r g).1 ≡ false
  unfolding stream_end
  stream_end-is_done message r (status_error code) = refl
  stream_end-is_done message r failed = refl
  stream_end-is_done message r (generated result) =
      rw (log_message-none message result r.scores) refl

  answered-is_completed :
      (body : ChatRequest) (history : List (String × Text)) (r : Retrieved)
      → is_completed
          (answered retrieve generate generate_stream st month now model body session_id history
            r).1
        ≡ false
  unfolding stream_response
  answered-is_completed body history timeout = refl
  answered-is_completed body history unavailable = refl
  answered-is_completed body history (retrieved r) = elim (Bool-cases body.stream) [
    | inr plain ↦
        let all =
          logged-is_completed body.message r (generate model body.message r.chunks history) in
        ground (arith, all, plain)
    | inl live ↦
        let s = generate_stream model body.message r.chunks history in
        let all = unfinished s.texts _ (stream_end-is_done body.message r s.end) in
        ground (arith, all, live)
  ]

abbrev after : ℕ → ℕ → ℕ → Conversation → Conversation
after now m id d = if is_conversation m id d then deleted now d else d

module _ (now m : ℕ) (session_id : String) (id : ℕ) where
  none_left :
      (rows : List Conversation)
      → All (λ (d : Conversation). (d.id == id) ≡ true) (filter (is_session m session_id) rows)
      → filter (is_session m session_id) (map (after now m id) rows) ≡ []
  none_left [] h = refl
  none_left (d ∷ rows) h = elim (Bool-cases (is_session m session_id d)) [
    | inl live ↦
        let these =
          subst
            (λ b.
              All (λ (d : Conversation). (d.id == id) ≡ true)
                (if b
                  then d ∷ filter (is_session m session_id) rows
                  else filter (is_session m session_id) rows))
            live h in
        let ih = none_left rows these.1 in
        let this : is_conversation m id d ≡ true = ground (arith, live, these.0) in
        ground (arith, this, ih)
    | inr other ↦
        let these =
          subst
            (λ b.
              All (λ (d : Conversation). (d.id == id) ≡ true)
                (if b
                  then d ∷ filter (is_session m session_id) rows
                  else filter (is_session m session_id) rows))
            other h in
        let ih = none_left rows these in
        elim (Bool-cases (is_conversation m id d)) [
          | inl this ↦ ground (arith, this, ih)
          | inr away ↦ ground (arith, away, other, ih)
        ]
  ]

  still_taken :
      (rows : List Conversation)
      → any (has_key m session_id) (map (after now m id) rows) ≡ any (has_key m session_id) rows
  still_taken [] = refl
  still_taken (d ∷ rows) =
      let ih = still_taken rows in
      elim (Bool-cases (is_conversation m id d)) [
        | inl this ↦ ground (arith, this, ih)
        | inr away ↦ ground (arith, away, ih)
      ]

live-has_key :
    (m : ℕ) (session_id : String) (rows : List Conversation) (c : Conversation)
    → filter (is_session m session_id) rows ≡ c ∷ []
    → any (has_key m session_id) rows ≡ true
live-has_key m session_id [] c h = ground (arith, h)
live-has_key m session_id (d ∷ rows) c h = elim (Bool-cases (is_session m session_id d)) [
  | inl live ↦ ground (arith, live)
  | inr other ↦
      let ih = live-has_key m session_id rows c (ground (arith, h, other)) in ground (arith, ih)
]

delete_found-conversations :
    (st : Chats) (now m id : ℕ) (rows : List Conversation)
    → (delete_found st now m id rows).1 ≡ allow tt
    → (delete_found st now m id rows).0.conversations ≡ map (after now m id) st.conversations
delete_found-conversations st now m id [] h = ground (arith, h)
delete_found-conversations st now m id (c ∷ []) h = refl
delete_found-conversations st now m id (c ∷ d ∷ rows) h = ground (arith, h)

-- If the session that a request names has one conversation of the model that is not deleted, then after a
-- successful deletion of it the request is never completed: it is not answered, and no event of a stream
-- is `done`, whatever the services return.
pub delete_conversation-chat :
    (retrieve : RagModel → Text → Option Text → Retrieved)
    (generate : RagModel → Text → List ContentChunk → List (String × Text) → Generated)
    (generate_stream : RagModel → Text → List ContentChunk → List (String × Text) → Streamed)
    (st : Chats) (month : String) (now later : ℕ) (client_ip : String) (model : RagModel)
    (body : ChatRequest) (new_id : String) (c : Conversation)
    → filter (is_session model.id (session_of body new_id)) st.conversations ≡ c ∷ []
    → (delete_conversation st now model c.id).1 ≡ allow tt
    → let st' = (delete_conversation st now model c.id).0 in
      is_completed
        (chat retrieve generate generate_stream st' month later client_ip model body new_id).1
      ≡ false
unfolding chat delete_conversation
delete_conversation-chat retrieve generate generate_stream st month now later client_ip model body
      new_id c only gone =
    let st' = (delete_conversation st now model c.id).0 in
    let session_id = session_of body new_id in
    let rows =
      delete_found-conversations st now model.id c.id
        (filter (is_conversation model.id c.id) st.conversations) gone in
    let none_live : filter (is_session model.id session_id) st'.conversations ≡ [] =
      ap (filter (is_session model.id session_id)) rows
      ∙ none_left now model.id session_id c.id st.conversations (
          subst (All (λ (d : Conversation). (d.id == c.id) ≡ true)) (sym only)
            (ground arith, tt)) in
    let taken : any (has_key model.id session_id) st'.conversations ≡ true =
      ap (any (has_key model.id session_id)) rows
      ∙ (still_taken now model.id session_id c.id st.conversations
          ∙ live-has_key model.id session_id st.conversations c only) in
    let free = (is_allowed st'.limiter later (chat_key model client_ip)).1 in
    elim (Bool-cases free) [
      | inr refused ↦ rw refused refl
      | inl free ↦ elim (Bool-cases (check_budget st'.usage model month)) [
        | inr spent ↦ rw (free, spent) refl
        | inl funded ↦
            elim (Bool-cases (
              needs_platform_key model
              && not (owner_can_use_global_keys st'.users model.owner_id))) [
                | inl barred ↦ rw (free, funded, barred) refl
                | inr keyed ↦
                    let all =
                      answered-is_completed retrieve generate generate_stream
                        (limited st' later model client_ip) month later model session_id none_live
                        taken body in
                    rw (free, funded, keyed) (all _ _)
              ]
      ]
    ]
