-- ===== src/Chat/Replies.antt =====
-- What a chat request leaves, for every reply.
use ragr.Prelude.{
  ◌==◌, if◌then◌else◌, ==_iff, Bool-cases, ℕ, String, ◌≡◌, refl, subst, ◌⊎◌, inl, inr, Bool, true,
  false, ◌&&◌, not, Option, none, some, List, [], ◌∷◌, ◌++◌, map, arith,
}
use ragr.Text.{Text}
use ragr.Str.{◌+s◌, decimal_str}
use ragr.Models.{RagModel, ContentChunk}
use ragr.RateLimit.{is_allowed}
use ragr.Budget.{check_budget}
use ragr.Users.{owner_can_use_global_keys}
use ragr.Generation.{GenerationResult}
use ragr.Dependencies.{Reply, allow, http_exception, exception}
use ragr.Chat.{Chats, log_message}
use ragr.Chat.Handler.{
  Retrieved, Generated, Streamed, retrieved, timeout, unavailable, generated, status_error, failed,
  Retrieval, ChatRequest, ChatResponse, ChatReply, answer, event_stream, Event, text, done, error,
  history_of, session_of, reply_of, committed, needs_platform_key, answered, logged, streamed,
  stream_logged, stream_end, stream_response, chat,
}
use ragr.Chat.Logged.{SameTables, IsLogged, WhenLogged, log_message-WhenLogged}

abbrev pub chat_key : RagModel → String → String
chat_key model client_ip = decimal_str model.id +s (":" +s client_ip)

abbrev pub limited : Chats → ℕ → RagModel → String → Chats
limited st now model client_ip = record st {
  limiter = (is_allowed st.limiter now (chat_key model client_ip)).0;
}

limited-IsLogged :
    (st st' : Chats) (month : String) (now : ℕ) (client_ip : String) (model : RagModel)
    (message : Text) (response : ChatResponse)
    → IsLogged (limited st now model client_ip) st' month model message response
    → IsLogged st st' month model message response
limited-IsLogged st st' month now client_ip model message response h = record {
  added = h.added;
  messages = h.messages;
  asked = h.asked;
  replied = h.replied;
  tokens = h.tokens;
  usage = h.usage;
  in_session = h.in_session;
}

module _ (retrieve : RagModel → Text → Option Text → Retrieved)
    (generate : RagModel → Text → List ContentChunk → List (String × Text) → Generated)
    (generate_stream : RagModel → Text → List ContentChunk → List (String × Text) → Streamed)
    (st : Chats) (month : String) (now : ℕ) (client_ip : String) (model : RagModel)
    (body : ChatRequest) (new_id : String) where
  -- The limiter, the budget and the keys allow the request.
  abbrev pub IsLet : Type 0
  IsLet =
      ((is_allowed st.limiter now (chat_key model client_ip)).1 ≡ true)
      × ((check_budget st.usage model month ≡ true)
          × ((needs_platform_key model && not (owner_can_use_global_keys st.users model.owner_id))
              ≡ false))

  -- the history of the session, and what the search is told of it
  abbrev pub turns : List (String × Text) × Option Text
  turns = history_of (limited st now model client_ip) model body (session_of body new_id)

  abbrev pub found : Retrieved
  found = retrieve model body.message turns.1

  abbrev pub made : Retrieval → Generated
  made r = generate model body.message r.chunks turns.0

  -- A service that is down: the embeddings, or the generation of an answer that is not streamed.
  abbrev pub IsDown : Type 0
  IsDown =
      (found ≡ timeout)
      ⊎ ((found ≡ unavailable)
          ⊎ ((body.stream ≡ false)
              × ((r : Retrieval) × ((found ≡ retrieved r) × (made r ≡ status_error 529)))))

  -- An answer that is not streamed fails in another way, or cannot be logged.
  abbrev pub IsBroken : Type 0
  IsBroken =
      (body.stream ≡ false)
      × ((r : Retrieval) × ((found ≡ retrieved r)
            × (((code : ℕ) × ((made r ≡ status_error code) × ((code == 529) ≡ false)))
                ⊎ ((made r ≡ failed)
                    ⊎ ((result : GenerationResult) × ((made r ≡ generated result)
                          × (log_message (limited st now model client_ip) month now model
                                body.message result (session_of body new_id) r.scores
                              ≡ none)))))))

  -- The events end with the result, which is logged, or with an error.
  abbrev pub IsStreamed : Chats → List Event → Type 0
  IsStreamed st' events =
      (texts : List Text) × (((response : ChatResponse) × ((events
              ≡ map text texts ++ done response ∷ [])
            × IsLogged st st' month model body.message response))
        ⊎ ((message : String) × ((events ≡ map text texts ++ error message ∷ [])
              × SameTables st st')))

  -- What the reply to a chat request says of the tables before and after it.
  abbrev pub IsChat : Chats → Reply ChatReply → Type 0
  IsChat st' (allow (answer response)) =
      IsLet × ((body.stream ≡ false) × IsLogged st st' month model body.message response)
  IsChat st' (allow (event_stream events)) = IsLet × ((body.stream ≡ true) × IsStreamed st' events)
  IsChat st' (http_exception code detail) =
      SameTables st st'
      × (((code ≡ 503) × (IsLet × IsDown))
          ⊎ (((code ≡ 429)
                × (((is_allowed st.limiter now (chat_key model client_ip)).1
                      && check_budget st.usage model month)
                    ≡ false))
              ⊎ ((code ≡ 403)
                  × ((needs_platform_key model
                        && not (owner_can_use_global_keys st.users model.owner_id))
                      ≡ true))))
  IsChat st' exception = SameTables st st' × (IsLet × IsBroken)

  abbrev kept : SameTables st (limited st now model client_ip)
  kept = (refl, (refl, (refl, refl)))

  abbrev Outcome : Chats × Reply ChatReply → Type 0
  Outcome d = IsChat d.0 d.1

  module _ (ok : IsLet) (r : Retrieval) (search : found ≡ retrieved r) where
    committed-IsChat :
        (result : GenerationResult) (o : Option Chats)
        → body.stream ≡ false
        → made r ≡ generated result
        → log_message
            (limited st now model client_ip)
            month
            now
            model
            body.message
            result
            (session_of body new_id)
            r.scores
          ≡ o
        → Outcome (
            committed
              (limited st now model client_ip)
              (reply_of model (session_of body new_id) r.rerank_tokens result)
              o)
    committed-IsChat result none plain e log =
        (kept, (ok, (plain, (r, (search, inr (inr (result, (e, log))))))))
    committed-IsChat result (some st') plain e log = (
      ok,
      (
        plain,
        limited-IsLogged st st' month now client_ip model body.message _ (
            subst
              (WhenLogged (limited st now model client_ip) month model body.message
                (reply_of model (session_of body new_id) r.rerank_tokens result))
              log
              (log_message-WhenLogged (limited st now model client_ip) month now model body.message
                result (session_of body new_id) r.scores r.rerank_tokens)),
      ),
    )

    logged-IsChat :
        (g : Generated)
        → body.stream ≡ false
        → made r ≡ g
        → Outcome (
            logged retrieve generate generate_stream
              (limited st now model client_ip)
              month
              now
              model
              body.message
              (session_of body new_id)
              r
              g)
    logged-IsChat (generated result) plain e = committed-IsChat result _ plain e refl
    logged-IsChat failed plain e = (kept, (ok, (plain, (r, (search, inr (inl e))))))
    logged-IsChat (status_error code) plain e = elim (Bool-cases (code == 529)) [
      | inl busy ↦ rw busy (
        kept,
        inl (
          refl,
          (
            ok,
            inr (
                inr (
                  plain,
                  (r, (search, subst (λ n. made r ≡ status_error n) ((==_iff code 529).0 busy) e)),
                )),
          ),
        ),
      )
      | inr other ↦ rw other (kept, (ok, (plain, (r, (search, inl (code, (e, other)))))))
    ]

    stream_logged-IsStreamed :
        (texts : List Text) (response : ChatResponse) (o : Option Chats)
        → WhenLogged (limited st now model client_ip) month model body.message response o
        → let last = stream_logged (limited st now model client_ip) response o in
          IsStreamed last.0 (map text texts ++ last.1 ∷ [])
    stream_logged-IsStreamed texts response none h = (texts, inr (_, (refl, kept)))
    stream_logged-IsStreamed texts response (some st') h = (
      texts,
      inl (
        response,
        (refl, limited-IsLogged st st' month now client_ip model body.message response h),
      ),
    )

    stream_end-IsStreamed :
        (texts : List Text) (g : Generated)
        → let last =
            stream_end
              (limited st now model client_ip)
              month
              now
              model
              body.message
              (session_of body new_id)
              r
              g in
          IsStreamed last.0 (map text texts ++ last.1 ∷ [])
    unfolding stream_end
    stream_end-IsStreamed texts (generated result) =
        stream_logged-IsStreamed texts
          (reply_of model (session_of body new_id) r.rerank_tokens result) _
          (log_message-WhenLogged (limited st now model client_ip) month now model body.message
            result (session_of body new_id) r.scores r.rerank_tokens)
    stream_end-IsStreamed texts (status_error code) = (texts, inr (_, (refl, kept)))
    stream_end-IsStreamed texts failed = (texts, inr (_, (refl, kept)))

  retrieved-IsChat :
      (ok : IsLet) (r : Retrieval) (search : found ≡ retrieved r) (b : Bool)
      → body.stream ≡ b
      → Outcome (
          if b
          then streamed retrieve generate generate_stream
              (limited st now model client_ip)
              month
              now
              model
              body.message
              (session_of body new_id)
              r
              (generate_stream model body.message r.chunks turns.0)
          else logged retrieve generate generate_stream
              (limited st now model client_ip)
              month
              now
              model
              body.message
              (session_of body new_id)
              r
              (made r))
  unfolding stream_response
  retrieved-IsChat ok r search true live =
      let s = generate_stream model body.message r.chunks turns.0 in
      (ok, (live, stream_end-IsStreamed ok r search s.texts s.end))
  retrieved-IsChat ok r search false plain = logged-IsChat ok r search (made r) plain refl

  answered-IsChat :
      (o : Retrieved)
      → IsLet
      → found ≡ o
      → Outcome (
          answered retrieve generate generate_stream
            (limited st now model client_ip)
            month
            now
            model
            body
            (session_of body new_id)
            turns.0
            o)
  answered-IsChat timeout ok e = (kept, inl (refl, (ok, inl e)))
  answered-IsChat unavailable ok e = (kept, inl (refl, (ok, inr (inl e))))
  answered-IsChat (retrieved r) ok e = retrieved-IsChat ok r e body.stream refl

  -- If the reply to a chat request is an answer, the limiter, the budget and the keys let it, and exactly
  -- one message was added, with the question, the answer and its tokens, under a conversation of the
  -- reply's session that is not deleted, and the month's usage was charged with these tokens once. A
  -- stream of events, also only of a request that they let, ends with such a result and is logged and
  -- charged like it, or ends with an error and changes no message, conversation or usage. If the reply is
  -- an error, none of these was changed, and the reason is the limiter or the budget (429), a missing key
  -- (403), or, of a request that they let, the search or, without streaming, the status 529 of the
  -- generation (503). When an exception ends the request, the same is kept, it was let and not streamed,
  -- and the generation had failed in another way or its answer could not be logged.
  pub chat-IsChat :
      let done = chat retrieve generate generate_stream st month now client_ip model body new_id in
      IsChat done.0 done.1
  unfolding chat
  chat-IsChat = elim (Bool-cases (is_allowed st.limiter now (chat_key model client_ip)).1) [
    | inr refused ↦ rw refused (kept, inr (inl (refl, ground (arith, refused))))
    | inl free ↦ elim (Bool-cases (check_budget st.usage model month)) [
      | inr spent ↦ rw (free, spent) (kept, inr (inl (refl, ground (arith, free, spent))))
      | inl funded ↦
          elim (Bool-cases
            (needs_platform_key model && not (owner_can_use_global_keys st.users model.owner_id))) [
              | inl barred ↦ rw (free, funded, barred) (kept, inr (inr (refl, barred)))
              | inr keyed ↦
                  let all = answered-IsChat found (free, (funded, keyed)) refl in
                  rw (free, funded, keyed) all
            ]
    ]
  ]
