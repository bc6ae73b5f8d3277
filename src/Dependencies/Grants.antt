-- ===== src/Dependencies/Grants.antt =====
-- What a granted request has shown.
use ragr.Prelude.{
  filter, any, All, filter-All, any-filter, ℕ, String, ◌≡◌, refl, sym, ap, ◌∙◌, subst, ◌⊎◌, inl,
  inr, Bool, true, false, ◌&&◌, ◌||◌, Option, none, some, List, [], ◌∷◌, arith, str_eq,
}
use ragr.Text.{Text}
use ragr.Models.{RagModel}
use ragr.Models.Chat.{ModelApiKey}
use ragr.Dependencies.{
  State, Reply, allow, http_exception, exception, ClerkUser, Request, is_superuser, is_read,
  extract_bearer, is_key, is_candidate, is_served, bind_one, resolve_model, check_candidates,
  validate_model_key, with_key, with_user, owner_reply, owner_auth, with_header, require_model_auth,
  chat_reply, hosted_reply, require_chat_auth, key_reply, and_then,
}

bind_one-allow :
    (st : State) (slug : String) (active_only : Bool) (models : List RagModel) (m : RagModel)
    → All (λ x. is_served slug active_only x ≡ true) models
    → (bind_one st models).1 ≡ allow m
    → (is_served slug active_only m ≡ true)
      × ((bind_one st models).0 ≡ record st { tenant = some m.id })
unfolding bind_one
bind_one-allow st slug active_only [] m h e = ground (arith, e)
bind_one-allow st slug active_only (x ∷ []) m h e =
    let same : x ≡ m = ground (arith, e) in
    subst
      (λ y.
        (is_served slug active_only y ≡ true)
        × (record st { tenant = some x.id } ≡ record st { tenant = some y.id }))
      same (h.0, refl)
bind_one-allow st slug active_only (_ ∷ _ ∷ _) m h e = ground (arith, e)

key_reply-allow :
    (model m : RagModel) (r : Reply Bool)
    → key_reply model r ≡ allow m
    → (r ≡ allow true) × (model ≡ m)
key_reply-allow model m (allow true) e = (refl, ground (arith, e))
key_reply-allow model m (allow false) e = ground (arith, e)
key_reply-allow model m (http_exception code detail) e = ground (arith, e)
key_reply-allow model m exception e = ground (arith, e)

-- A granted step was granted in both parts.
and_then-allow :
    (first : State × Reply RagModel) (next : State → RagModel → State × Reply RagModel)
    (m : RagModel)
    → (and_then first next).1 ≡ allow m
    → (model : RagModel) × ((first.1 ≡ allow model)
        × (((next first.0 model).1 ≡ allow m) × (and_then first next ≡ next first.0 model)))
and_then-allow (st, allow model) next m e = (model, (refl, (e, refl)))
and_then-allow (st, http_exception code detail) next m e = ground (arith, e)
and_then-allow (st, exception) next m e = ground (arith, e)

module _ (checkpw : Text → String → Bool) (verify_clerk_token : Request → Option ClerkUser) where
  -- An active key of the model with the token's prefix, of whose hash bcrypt says that it is the token's.
  abbrev pub opens : State → ℕ → Text → Bool
  opens st model_id token =
      any (λ (key : ModelApiKey). is_candidate model_id token key && checkpw token key.key_hash)
        st.keys

  check_candidates-opens :
      (st : State) (now : ℕ) (token : Text) (keys : List ModelApiKey)
      → (check_candidates checkpw verify_clerk_token st now token keys).1 ≡ allow true
      → any (λ (key : ModelApiKey). checkpw token key.key_hash) keys ≡ true
  unfolding check_candidates
  check_candidates-opens st now token [] e = ground (arith, e)
  check_candidates-opens st now token (key ∷ []) e = ground (arith, e)
  check_candidates-opens st now token (_ ∷ _ ∷ _) e = ground (arith, e)

  with_key-allow :
      (st : State) (now : ℕ) (model m : RagModel) (token : Text)
      → (with_key checkpw verify_clerk_token st now model token).1 ≡ allow m
      → (model ≡ m) × (opens st model.id token ≡ true)
  unfolding with_key validate_model_key
  with_key-allow st now model m token e =
      let valid = key_reply-allow model m _ e in
      (
        valid.1,
        sym (any-filter (is_candidate model.id token) (λ key. checkpw token key.key_hash) st.keys)
            ∙ check_candidates-opens st now token (filter (is_candidate model.id token) st.keys)
                valid.0,
      )

  -- A per-model key opens the model; or the owner, or the superuser who only reads, is signed in.
  abbrev pub MayManage : State → String → Request → RagModel → Type 0
  MayManage st superuser_id request m =
      ((token : Text) × ((is_key (extract_bearer request.authorization) ≡ some token)
          × (opens st m.id token ≡ true)))
      ⊎ ((user : ClerkUser) × ((verify_clerk_token request ≡ some user)
            × ((is_superuser superuser_id user && is_read request.method
                  || str_eq m.owner_id user.user_id)
                ≡ true)))

  owner_reply-allow :
      (st : State) (now : ℕ) (superuser_id : String) (request : Request) (model m : RagModel)
      (key : Option Text) (user : Option ClerkUser)
      → is_key (extract_bearer request.authorization) ≡ key
      → verify_clerk_token request ≡ user
      → (owner_reply checkpw verify_clerk_token st now superuser_id request model key user).1
        ≡ allow m
      → (model ≡ m) × MayManage st superuser_id request model
  unfolding owner_reply with_user
  owner_reply-allow st now superuser_id request model m (some token) user k u e =
      let opened = with_key-allow st now model m token e in (opened.0, inl (token, (k, opened.1)))
  owner_reply-allow st now superuser_id request model m none (some user) k u e =
      (ground (arith, e), inr (user, (u, ground (arith, e))))
  owner_reply-allow st now superuser_id request model m none none k u e = ground (arith, e)

  resolve-allow :
      (st : State) (slug : String) (active_only : Bool) (m : RagModel)
      → (resolve_model st slug active_only).1 ≡ allow m
      → (is_served slug active_only m ≡ true)
        × ((resolve_model st slug active_only).0 ≡ record st { tenant = some m.id })
  unfolding resolve_model
  resolve-allow st slug active_only m e =
      bind_one-allow st slug active_only (filter (is_served slug active_only) st.models) m
        (filter-All (is_served slug active_only) st.models) e

  check_candidates-tenant :
      (st : State) (now : ℕ) (token : Text) (keys : List ModelApiKey)
      → (check_candidates checkpw verify_clerk_token st now token keys).0.tenant ≡ st.tenant
  unfolding check_candidates
  check_candidates-tenant st now token [] = refl
  check_candidates-tenant st now token (key ∷ []) = ground arith
  check_candidates-tenant st now token (_ ∷ _ ∷ _) = refl

  with_key-tenant :
      (st : State) (now : ℕ) (model : RagModel) (token : Text)
      → (with_key checkpw verify_clerk_token st now model token).0.tenant ≡ st.tenant
  unfolding with_key validate_model_key
  with_key-tenant st now model token = check_candidates-tenant st now token _

  owner_reply-tenant :
      (st : State) (now : ℕ) (superuser_id : String) (request : Request) (model : RagModel)
      (key : Option Text) (user : Option ClerkUser)
      → (owner_reply checkpw verify_clerk_token st now superuser_id request model key user).0.tenant
        ≡ st.tenant
  unfolding owner_reply with_user
  owner_reply-tenant st now superuser_id request model (some token) user =
      with_key-tenant st now model token
  owner_reply-tenant st now superuser_id request model none (some user) = refl
  owner_reply-tenant st now superuser_id request model none none = refl

  owner_auth-MayManage :
      (st : State) (now : ℕ) (superuser_id : String) (request : Request) (slug : String)
      (m : RagModel)
      → (owner_auth checkpw verify_clerk_token st now superuser_id request slug).1 ≡ allow m
      → let after = (owner_auth checkpw verify_clerk_token st now superuser_id request slug).0 in
        (is_served slug false m ≡ true)
        × (MayManage st superuser_id request m × (after.tenant ≡ some m.id))
  unfolding owner_auth
  owner_auth-MayManage st now superuser_id request slug m e =
      let key = is_key (extract_bearer request.authorization) in
      let user = verify_clerk_token request in
      let (model, (found, (granted, rest))) = and_then-allow (resolve_model st slug false) _ m e in
      let (served, bound) = resolve-allow st slug false model found in
      let (same, may) =
        owner_reply-allow _ now superuser_id request model m key user refl refl granted in
      (
        subst (λ x. is_served slug false x ≡ true) same served,
        (
          subst (MayManage st superuser_id request) same
              (subst (λ s. MayManage s superuser_id request model) bound may),
          ap (λ p. p.0.tenant) rest
              ∙ (owner_reply-tenant _ now superuser_id request model key user
                  ∙ (ap (λ s. s.tenant) bound ∙ ap (λ x. some x.id) same)),
        ),
      )

  with_header-allow :
      (st : State) (header : Option Text) (outcome : State × Reply RagModel) (m : RagModel)
      → (with_header checkpw verify_clerk_token st header outcome).1 ≡ allow m
      → outcome ≡ with_header checkpw verify_clerk_token st header outcome
  with_header-allow st none outcome m e = ground (arith, e)
  with_header-allow st (some h) outcome m e = refl

  -- A management route that is granted a model has the model of its slug, which is not deleted; the
  -- request has an active key of that very model, or is signed in as its owner, or only reads as the
  -- superuser; and the session's tenant is that model.
  pub require_model_auth-MayManage :
      (st : State) (now : ℕ) (superuser_id : String) (request : Request) (slug : String)
      (m : RagModel)
      → (require_model_auth checkpw verify_clerk_token st now superuser_id request slug).1 ≡ allow m
      → let after =
          (require_model_auth checkpw verify_clerk_token st now superuser_id request slug).0 in
        (is_served slug false m ≡ true)
        × (MayManage st superuser_id request m × (after.tenant ≡ some m.id))
  unfolding require_model_auth
  require_model_auth-MayManage st now superuser_id request slug m e =
      let body = owner_auth checkpw verify_clerk_token st now superuser_id request slug in
      let same = with_header-allow st request.authorization body m e in
      subst
        (λ d.
          (is_served slug false m ≡ true)
          × (MayManage st superuser_id request m × (d.0.tenant ≡ some m.id)))
        same (owner_auth-MayManage st now superuser_id request slug m (ap (λ d. d.1) same ∙ e))

  -- Chat is hosted and the request has no authorization; or a per-model key opens the model; or
  -- somebody is signed in.
  abbrev pub MayChat : State → Request → RagModel → Type 0
  MayChat st request m =
      ((request.authorization ≡ none) × (m.hosted_chat ≡ true))
      ⊎ (((token : Text) × ((is_key (extract_bearer request.authorization) ≡ some token)
              × (opens st m.id token ≡ true)))
          ⊎ ((user : ClerkUser) × (verify_clerk_token request ≡ some user)))

  chat_reply-allow :
      (st : State) (now : ℕ) (request : Request) (model m : RagModel) (key : Option Text)
      (user : Option ClerkUser)
      → is_key (extract_bearer request.authorization) ≡ key
      → verify_clerk_token request ≡ user
      → (chat_reply checkpw verify_clerk_token st now model key user).1 ≡ allow m
      → (model ≡ m) × MayChat st request model
  unfolding chat_reply
  chat_reply-allow st now request model m (some token) user k u e =
      let opened = with_key-allow st now model m token e in
      (opened.0, inr (inl (token, (k, opened.1))))
  chat_reply-allow st now request model m none (some user) k u e =
      (ground (arith, e), inr (inr (user, u)))
  chat_reply-allow st now request model m none none k u e = ground (arith, e)

  hosted_reply-allow :
      (st : State) (now : ℕ) (request : Request) (model m : RagModel) (header : Option Text)
      → request.authorization ≡ header
      → (hosted_reply checkpw verify_clerk_token st now request model header).1 ≡ allow m
      → (model ≡ m) × MayChat st request model
  unfolding hosted_reply
  hosted_reply-allow st now request model m none h e =
      (ground (arith, e), inl (h, ground (arith, e)))
  hosted_reply-allow st now request model m (some authorization) h e =
      chat_reply-allow st now request model m _ _ (ap (λ a. is_key (extract_bearer a)) h) refl e

  -- A chat route that is granted a model has the model of its slug, which is active and not deleted;
  -- and the chat is hosted and the request carries no authorization, or the request has an active key
  -- of that very model, or somebody is signed in.
  pub require_chat_auth-MayChat :
      (st : State) (now : ℕ) (request : Request) (slug : String) (m : RagModel)
      → (require_chat_auth checkpw verify_clerk_token st now request slug).1 ≡ allow m
      → (is_served slug true m ≡ true) × MayChat st request m
  unfolding require_chat_auth
  require_chat_auth-MayChat st now request slug m e =
      let (model, (found, (granted, _))) = and_then-allow (resolve_model st slug true) _ m e in
      let (served, bound) = resolve-allow st slug true model found in
      let (same, may) =
        hosted_reply-allow _ now request model m request.authorization refl granted in
      (
        subst (λ x. is_served slug true x ≡ true) same served,
        subst (MayChat st request) same (subst (λ s. MayChat s request model) bound may),
      )
