-- ===== src/ApiKeys/Access.antt =====
-- What a key opens, from its creation to its revocation.
use ragr.Prelude.{
  Bool-cases, take, filter, filter-append, any-last, ℕ, String, ◌≡◌, refl, ap, ◌∙◌, inl, inr, Bool,
  true, false, Option, none, some, List, [], ◌∷◌, ◌++◌, map, map-append, arith,
}
use ragr.Text.{Text, text_eq}
use ragr.Models.{RagModel}
use ragr.Models.Chat.{ModelApiKey}
use ragr.Dependencies.{
  State, Reply, allow, http_exception, ClerkUser, Request, extract_bearer, is_candidate, is_served,
  bind_one, resolve_model, is_key, check_candidates, validate_model_key, key_reply, with_key,
  owner_reply, owner_auth, with_header, require_model_auth,
}
use ragr.ApiKeys.{generate_key, new_key, create_api_key, is_key_of, deactivate, revoke_api_key}

text_eq-same : (t : Text) → text_eq t t ≡ true
text_eq-same [] = refl
text_eq-same (c ∷ t) = let ih = text_eq-same t in ground (arith, ih)

deactivated :
    (m key_id : ℕ) (token : Text) (keys : List ModelApiKey)
    → filter (is_candidate m token) keys ≡ []
    → filter (is_candidate m token) (map (deactivate m key_id) keys) ≡ []
deactivated m key_id token [] h = refl
deactivated m key_id token (key ∷ keys) h = elim (Bool-cases (is_candidate m token key)) [
  | inl here ↦ ground (arith, h, here)
  | inr away ↦
      let ih = deactivated m key_id token keys (ground (arith, h, away)) in
      elim (Bool-cases (is_key_of m key_id key)) [
        | inl this ↦ ground (arith, ih, this)
        | inr other ↦ ground (arith, ih, other, away)
      ]
]

module _ (checkpw : Text → String → Bool) (verify_clerk_token : Request → Option ClerkUser) where
  -- the reply to a key, by the rows that were selected for it
  abbrev key_result : Text → List ModelApiKey → RagModel → Reply RagModel
  key_result token candidates model =
      key_reply model
        (check_candidates checkpw verify_clerk_token
          (record { models = []; keys = []; users = []; tenant = none }) 0 token candidates).1

  check_candidates-reply :
      (st st' : State) (now now' : ℕ) (token : Text) (candidates : List ModelApiKey)
      → (check_candidates checkpw verify_clerk_token st now token candidates).1
        ≡ (check_candidates checkpw verify_clerk_token st' now' token candidates).1
  unfolding check_candidates
  check_candidates-reply st st' now now' token [] = refl
  check_candidates-reply st st' now now' token (c ∷ []) =
      elim (Bool-cases (checkpw token c.key_hash)) [
        | inl yes_it_is ↦ rw yes_it_is refl
        | inr no_match ↦ rw no_match refl
      ]
  check_candidates-reply st st' now now' token (_ ∷ _ ∷ _) = refl

  with_header-key :
      (st : State) (header : Option Text) (outcome : State × Reply RagModel) (token : Text)
      → is_key (extract_bearer header) ≡ some token
      → with_header checkpw verify_clerk_token st header outcome ≡ outcome
  unfolding extract_bearer
  with_header-key st none outcome token e = ground (arith, e)
  with_header-key st (some h) outcome token e = refl

  -- With the header of a key, the reply depends on the key's candidates alone.
  require_model_auth-key :
      (st : State) (now : ℕ) (superuser_id slug : String) (request : Request) (model : RagModel)
      (token : Text)
      → filter (is_served slug false) st.models ≡ model ∷ []
      → is_key (extract_bearer request.authorization) ≡ some token
      → (require_model_auth checkpw verify_clerk_token st now superuser_id request slug).1
        ≡ key_result token (filter (is_candidate model.id token) st.keys) model
  unfolding require_model_auth owner_auth resolve_model bind_one owner_reply with_key
      validate_model_key
  require_model_auth-key st now superuser_id slug request model token served header =
      let body = owner_auth checkpw verify_clerk_token st now superuser_id request slug in
      ap (λ d. d.1) (with_header-key st request.authorization body token header)
      ∙ rw (served, header)
          (ap (key_reply model)
            (check_candidates-reply _ _ now 0 token (filter (is_candidate model.id token) st.keys)))

  module _ (hashpw : Text → String) (st : State) (now key_id : ℕ) (superuser_id slug label : String)
      (request : Request) (model : RagModel) (secret : Text) where
    abbrev raw_key : Text
    raw_key = generate_key secret

    abbrev key : ModelApiKey
    key = new_key key_id hashpw model label raw_key

    key-is_candidate : is_candidate model.id raw_key key ≡ true
    key-is_candidate = ground (arith, text_eq-same (take 12 raw_key))

    created-candidates :
        filter (is_candidate model.id raw_key) st.keys ≡ []
        → filter (is_candidate model.id raw_key) (st.keys ++ key ∷ []) ≡ key ∷ []
    created-candidates unused =
        rw
          (
            filter-append (is_candidate model.id raw_key) st.keys (key ∷ []),
            unused,
            key-is_candidate,
          )
          refl

    revoked-candidates :
        filter (is_candidate model.id raw_key) st.keys ≡ []
        → filter
            (is_candidate model.id raw_key)
            (map (deactivate model.id key_id) (st.keys ++ key ∷ []))
          ≡ []
    revoked-candidates unused =
        let gone : filter (is_candidate model.id raw_key)
              (map (deactivate model.id key_id) (key ∷ []))
            ≡ [] =
          ground arith in
        rw
          (
            map-append (deactivate model.id key_id) st.keys (key ∷ []),
            filter-append (is_candidate model.id raw_key) (map (deactivate model.id key_id) st.keys)
                (map (deactivate model.id key_id) (key ∷ [])),
            deactivated model.id key_id raw_key st.keys unused,
          )
          gone

    -- The key's hash is the right one, exactly one model is served under the slug, no active key of the
    -- model has the new key's first twelve characters, and the request carries the new key. Then the
    -- request is granted the model once the key has been created, and gets 401 again once it has been
    -- revoked, which succeeds.
    pub create_api_key-revoke_api_key :
        checkpw (generate_key secret) (hashpw (generate_key secret)) ≡ true
        → filter (is_served slug false) st.models ≡ model ∷ []
        → filter (is_candidate model.id (generate_key secret)) st.keys ≡ []
        → is_key (extract_bearer request.authorization) ≡ some (generate_key secret)
        → let created = create_api_key st key_id hashpw secret model label in
          let revoked = revoke_api_key created.0 key_id model in
          ((require_model_auth checkpw verify_clerk_token created.0 now superuser_id request slug).1
            ≡ allow model)
          × ((revoked.1 ≡ allow tt)
              × ((require_model_auth checkpw verify_clerk_token revoked.0 now superuser_id request
                    slug).1
                  ≡ http_exception 401 "Invalid API key"))
    unfolding create_api_key revoke_api_key check_candidates
    create_api_key-revoke_api_key matches served unused header =
        let made = record st { keys = st.keys ++ key ∷ [] } in
        let there = any-last (is_key_of model.id key_id) st.keys key (ground arith) in
        (
          require_model_auth-key made now superuser_id slug request model raw_key served header
              ∙ rw (created-candidates unused, matches) refl,
          (
            rw there refl,
            rw there (
                require_model_auth-key
                  (record made { keys = map (deactivate model.id key_id) made.keys }) now
                  superuser_id slug request model raw_key served header
                ∙ rw (revoked-candidates unused) refl),
          ),
        )
