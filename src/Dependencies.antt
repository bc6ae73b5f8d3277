-- ===== src/Dependencies.antt =====
-- app/dependencies.py: who may use a model. bcrypt and the verification of a Clerk session are
-- parameters; the settings are arguments. A reply is the model, an HTTP error, or an exception that
-- nobody catches.
pub mod Grants
mod Tests
use ragr.Prelude.{
  ltb, leb, ◌==◌, if◌then◌else◌, ltb→lt, leb→le, ==_iff, Bool-cases, Option-cases, length, take,
  drop, get_elem?, filter, get_last?, get_last?-concat, any, all, length-append, length-take,
  length-drop, take-append-drop, filter-append, length-filter-le, length-map, All, All-append,
  All-filter, All-take, All-map, filter-All, any-filter, any-last, ℕ, zero, suc, ◌+◌, ◌-◌, ◌*◌, ◌/◌,
  ◌%◌, ◌^◌, ◌≤◌, ◌<◌, min, max, String, ◌≡◌, refl, sym, ap, ap₂, ◌∙◌, fun_ext, subst, ◌≢◌, ◌↔◌, ◌⊎◌,
  inl, inr, Bool, true, false, ◌&&◌, ◌||◌, not, Option, none, some, List, [], ◌∷◌, ◌++◌, map,
  append_assoc, append-nil, map-append, arith, str_eq, eq_iff, eq_refl,
}
use ragr.Text.{Text, is_empty, strip, starts_with, codes, text_eq}
use ragr.Models.{RagModel}
use ragr.Models.Chat.{ModelApiKey, User}
use ragr.Users.{get_or_create_user}

-- `tenant` is what `bind_tenant` sets for the session.
pub record State : Type 0 where
  pub models : List RagModel
  pub keys : List ModelApiKey
  pub users : List User
  pub tenant : Option ℕ

pub data Reply {ℓ} (A : Type ℓ) : Type ℓ where
  allow : A → Reply A
  http_exception : ℕ → String → Reply A
  exception : Reply A

pub record ClerkUser : Type 0 where
  pub user_id : String
  pub email : Option String
  pub first_name : Option String
  pub last_name : Option String

pub record Request : Type 0 where
  pub method : String
  pub authorization : Option Text

-- settings.superuser_id
abbrev pub is_superuser : String → ClerkUser → Bool
is_superuser superuser_id user = not (str_eq superuser_id "") && str_eq user.user_id superuser_id

abbrev bearer : Text
bearer = codes "Bearer "

-- `_extract_bearer`
unfoldable pub extract_bearer : Option Text → Option Text
extract_bearer none = none
extract_bearer (some authorization) =
    if starts_with bearer authorization
    then some (strip (drop (length bearer) authorization))
    else none

abbrev pub is_candidate : ℕ → Text → ModelApiKey → Bool
is_candidate model_id token key =
    key.model_id == model_id && (key.is_active && text_eq key.key_prefix (take 12 token))

abbrev pub is_served : String → Bool → RagModel → Bool
is_served slug active_only model =
    str_eq model.slug slug
    && (elim model.deleted_at [ none ↦ true | some _ ↦ false ]
        && (not active_only || model.is_active))

-- scalar_one_or_none: more than one row is an exception. The one row becomes the tenant.
unfoldable pub bind_one : State → List RagModel → State × Reply RagModel
bind_one st [] = (st, http_exception 404 "Model not found")
bind_one st (model ∷ []) = (record st { tenant = some model.id }, allow model)
bind_one st (_ ∷ _ ∷ _) = (st, exception)

-- `_resolve_model`
unfoldable pub resolve_model : State → String → Bool → State × Reply RagModel
unfolding bind_one
resolve_model st slug active_only = bind_one st (filter (is_served slug active_only) st.models)

-- Per-model keys start with this.
abbrev pub key_mark : Text
key_mark = codes "ragr_"

abbrev pub is_key : Option Text → Option Text
is_key none = none
is_key (some token) =
    if not (is_empty token) && starts_with key_mark token then some token else none

abbrev pub is_read : String → Bool
is_read method = str_eq method "GET" || (str_eq method "HEAD" || str_eq method "OPTIONS")

abbrev touched : ℕ → ModelApiKey → ModelApiKey → ModelApiKey
touched now candidate key =
    if key.id == candidate.id then record key { last_used_at = some now } else key

-- what follows the check of a key
abbrev pub key_reply : RagModel → Reply Bool → Reply RagModel
key_reply model (allow true) = allow model
key_reply model (allow false) = http_exception 401 "Invalid API key"
key_reply model (http_exception code detail) = http_exception code detail
key_reply model exception = exception

-- An error of the first step is the reply.
abbrev pub and_then :
    State × Reply RagModel → (State → RagModel → State × Reply RagModel) → State × Reply RagModel
and_then (st, allow model) next = next st model
and_then (st, http_exception code detail) next = (st, http_exception code detail)
and_then (st, exception) next = (st, exception)

module _ (checkpw : Text → String → Bool) (verify_clerk_token : Request → Option ClerkUser) where
  -- the one candidate, of the rows that were selected
  unfoldable pub check_candidates : State → ℕ → Text → List ModelApiKey → State × Reply Bool
  check_candidates st now token [] = (st, allow false)
  check_candidates st now token (candidate ∷ []) =
      if checkpw token candidate.key_hash
      then (record st { keys = map (touched now candidate) st.keys }, allow true)
      else (st, allow false)
  check_candidates st now token (_ ∷ _ ∷ _) = (st, exception)

  -- `_validate_model_key`, at the time `now`
  unfoldable pub validate_model_key : State → ℕ → RagModel → Text → State × Reply Bool
  unfolding check_candidates
  validate_model_key st now model token =
      check_candidates st now token (filter (is_candidate model.id token) st.keys)

  -- the branch of a per-model key
  unfoldable pub with_key : State → ℕ → RagModel → Text → State × Reply RagModel
  unfolding validate_model_key
  with_key st now model token =
      let checked = validate_model_key st now model token in (checked.0, key_reply model checked.1)

  -- the branch of a signed-in user, who is written to the users table
  unfoldable pub with_user :
      State → String → Request → RagModel → ClerkUser → State × Reply RagModel
  with_user st superuser_id request model user =
      let rows =
        get_or_create_user st.users user.user_id user.email user.first_name user.last_name in
      (
        record st { users = rows.0 },
        if is_superuser superuser_id user && is_read request.method
            then allow model
            else if str_eq model.owner_id user.user_id
            then allow model
            else http_exception 403 "You do not own this model",
      )

  -- the rest of `require_model_auth`, on the per-model key, if there is one, and the signed-in user
  unfoldable pub owner_reply :
      State
      → ℕ
      → String
      → Request
      → RagModel
      → Option Text
      → Option ClerkUser
      → State × Reply RagModel
  unfolding with_key with_user
  owner_reply st now superuser_id request model (some token) user = with_key st now model token
  owner_reply st now superuser_id request model none (some user) =
      with_user st superuser_id request model user
  owner_reply st now superuser_id request model none none =
      (st, http_exception 401 "Authentication required")

  -- the body of `require_model_auth`
  unfoldable pub owner_auth : State → ℕ → String → Request → String → State × Reply RagModel
  unfolding resolve_model owner_reply
  owner_auth st now superuser_id request slug = and_then (resolve_model st slug false) (λ st' model.
      owner_reply st' now superuser_id request model (is_key (extract_bearer request.authorization))
        (verify_clerk_token request))

  -- `Header(...)`: a request without the header is refused before the body.
  abbrev pub with_header : State → Option Text → State × Reply RagModel → State × Reply RagModel
  with_header st none outcome = (st, http_exception 422 "Field required")
  with_header st (some _) outcome = outcome

  unfoldable pub require_model_auth : State → ℕ → String → Request → String → State × Reply RagModel
  unfolding owner_auth
  require_model_auth st now superuser_id request slug =
      with_header st request.authorization (owner_auth st now superuser_id request slug)

  -- the rest of `require_chat_auth`, when there is a header
  unfoldable pub chat_reply :
      State → ℕ → RagModel → Option Text → Option ClerkUser → State × Reply RagModel
  unfolding with_key
  chat_reply st now model (some token) user = with_key st now model token
  chat_reply st now model none (some _) = (st, allow model)
  chat_reply st now model none none = (st, http_exception 401 "Authentication required")

  -- the rest of `require_chat_auth`, on the header
  unfoldable pub hosted_reply :
      State → ℕ → Request → RagModel → Option Text → State × Reply RagModel
  unfolding chat_reply
  hosted_reply st now request model none =
      (st, if model.hosted_chat then allow model else http_exception 401 "Authentication required")
  hosted_reply st now request model (some authorization) =
      chat_reply st now model (is_key (extract_bearer (some authorization)))
        (verify_clerk_token request)

  unfoldable pub require_chat_auth : State → ℕ → Request → String → State × Reply RagModel
  unfolding resolve_model hosted_reply
  require_chat_auth st now request slug =
      and_then (resolve_model st slug true)
        (λ st' model. hosted_reply st' now request model request.authorization)
