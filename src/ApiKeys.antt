-- ===== src/ApiKeys.antt =====
-- app/api/api_keys.py: creating and revoking the keys of a model. The random part of a key, its hash by
-- bcrypt and the row's id are arguments. Keys are listed by their creation, a server default.
pub mod Access
mod Tests
use ragr.Prelude.{
  ltb, leb, ◌==◌, if◌then◌else◌, ltb→lt, leb→le, ==_iff, Bool-cases, Option-cases, length, take,
  drop, get_elem?, filter, get_last?, get_last?-concat, any, all, length-append, length-take,
  length-drop, take-append-drop, filter-append, length-filter-le, length-map, All, All-append,
  All-filter, All-take, All-map, filter-All, any-filter, ℕ, zero, suc, ◌+◌, ◌-◌, ◌*◌, ◌/◌, ◌%◌, ◌^◌,
  ◌≤◌, ◌<◌, min, max, String, ◌≡◌, refl, sym, ap, ap₂, ◌∙◌, fun_ext, subst, ◌≢◌, ◌↔◌, ◌⊎◌, inl, inr,
  Bool, true, false, ◌&&◌, ◌||◌, not, Option, none, some, List, [], ◌∷◌, ◌++◌, map, append_assoc,
  append-nil, map-append, arith, str_eq, eq_iff, eq_refl,
}
use ragr.Text.{Text, codes}
use ragr.Models.{RagModel}
use ragr.Models.Chat.{ModelApiKey}
use ragr.Dependencies.{State, Reply, allow, http_exception}

abbrev pub key_prefix : Text
key_prefix = codes "ragr_"

-- `_generate_key`, on what `secrets.token_urlsafe` returns
abbrev pub generate_key : Text → Text
generate_key token = key_prefix ++ token

pub record ApiKeyCreateResponse : Type 0 where
  pub id : ℕ
  pub label : String
  pub key_prefix : Text
  pub raw_key : Text

abbrev pub new_key : ℕ → (Text → String) → RagModel → String → Text → ModelApiKey
new_key key_id hashpw model label raw_key = record {
  id = key_id;
  model_id = model.id;
  label = label;
  key_hash = hashpw raw_key;
  key_prefix = take 12 raw_key;
  is_active = true;
  last_used_at = none;
}

unfoldable pub create_api_key :
    State → ℕ → (Text → String) → Text → RagModel → String → State × ApiKeyCreateResponse
create_api_key st key_id hashpw token model label =
    let raw_key = generate_key token in
    let api_key = new_key key_id hashpw model label raw_key in
    (
      record st { keys = st.keys ++ api_key ∷ [] },
      record {
        id = api_key.id;
        label = api_key.label;
        key_prefix = api_key.key_prefix;
        raw_key = raw_key;
      },
    )

-- the row of this id, if it is the model's
abbrev pub is_key_of : ℕ → ℕ → ModelApiKey → Bool
is_key_of model_id key_id key = key.id == key_id && key.model_id == model_id

abbrev pub deactivate : ℕ → ℕ → ModelApiKey → ModelApiKey
deactivate model_id key_id key =
    if is_key_of model_id key_id key then record key { is_active = false } else key

unfoldable pub revoke_api_key : State → ℕ → RagModel → State × Reply (Unit {0})
revoke_api_key st key_id model =
    if any (is_key_of model.id key_id) st.keys
    then (record st { keys = map (deactivate model.id key_id) st.keys }, allow tt)
    else (st, http_exception 404 "API key not found")
