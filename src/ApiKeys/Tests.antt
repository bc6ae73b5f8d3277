-- ===== src/ApiKeys/Tests.antt =====
-- A key from its creation to its revocation.
use ragr.Prelude.{
  ◌==◌, if◌then◌else◌, length, String, ◌≡◌, refl, Bool, Option, none, some, [], ◌∷◌, str_eq,
}
use ragr.Text.{Text, codes, strip, is_space, lstrip, rstrip_by}
use ragr.Samples.{model}
use ragr.Dependencies.{
  State, allow, http_exception, ClerkUser, Request, extract_bearer, require_model_auth,
}
use ragr.ApiKeys.{create_api_key, revoke_api_key}
use ragr.ApiKeys.Access.{create_api_key-revoke_api_key}

-- A hash that is found by the length of the key alone.
abbrev hashpw : Text → String
hashpw raw_key = if length raw_key == 13 then "hash" else "other"

abbrev checkpw : Text → String → Bool
checkpw raw_key hash = str_eq (hashpw raw_key) hash

abbrev nobody : Request → Option ClerkUser
nobody _ = none

abbrev st : State
st = record { models = model ∷ []; keys = []; users = []; tenant = none }

abbrev request : Request
request = record { method = "PUT"; authorization = some (codes "Bearer ragr_12345678") }

create_api_key-revoke_api_key_example :
    let created = create_api_key st 7 hashpw (codes "12345678") model "editor" in
    let revoked = revoke_api_key created.0 7 model in
    ((require_model_auth checkpw nobody created.0 9 "" request "docs").1 ≡ allow model)
    × ((revoked.1 ≡ allow tt)
        × ((require_model_auth checkpw nobody revoked.0 9 "" request "docs").1
            ≡ http_exception 401 "Invalid API key"))
unfolding extract_bearer strip is_space lstrip rstrip_by
create_api_key-revoke_api_key_example =
    create_api_key-revoke_api_key checkpw nobody hashpw st 9 7 "" "docs" "editor" request model
      (codes "12345678") refl refl refl refl
