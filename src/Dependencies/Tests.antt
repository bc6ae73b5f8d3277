-- ===== src/Dependencies/Tests.antt =====
-- Runs of the authentication.
use ragr.Prelude.{String, ◌≡◌, refl, Bool, true, false, Option, none, some, [], ◌∷◌, str_eq}
use ragr.Text.{Text, codes, strip, is_space, lstrip, rstrip_by}
use ragr.Samples.{model}
use ragr.Models.Chat.{ModelApiKey, User}
use ragr.Users.{owner_can_use_global_keys, get_or_create_user, get_or_create_user-permissions}
use ragr.Dependencies.{
  State, allow, http_exception, ClerkUser, Request, is_served, extract_bearer, require_model_auth,
  require_chat_auth,
}
use ragr.Dependencies.Grants.{
  MayManage, MayChat, require_model_auth-MayManage, require_chat_auth-MayChat,
}

-- A check that accepts every token for the one hash.
abbrev checkpw : Text → String → Bool
checkpw token hash = str_eq hash "hash"

abbrev nobody : Request → Option ClerkUser
nobody _ = none

abbrev key : ModelApiKey
key = record {
  id = 7;
  model_id = 1;
  label = "editor";
  key_hash = "hash";
  key_prefix = codes "ragr_1234567";
  is_active = true;
  last_used_at = none;
}

abbrev st : State
st = record { models = model ∷ []; keys = key ∷ []; users = []; tenant = none }

abbrev request : Request
request = record { method = "PUT"; authorization = some (codes "Bearer ragr_1234567890") }

strip_lem : Unit {0}
unfolding strip is_space lstrip rstrip_by
strip_lem = tt

granted : (require_model_auth checkpw nobody st 9 "" request "docs").1 ≡ allow model
unfolding require_model_auth extract_bearer strip_lem
granted = refl

refused :
    (require_model_auth checkpw nobody st 9 "" (record request { authorization = none }) "docs").1
    ≡ http_exception 422 "Field required"
unfolding require_model_auth extract_bearer strip_lem
refused = refl

require_model_auth-MayManage_example :
    let after = (require_model_auth checkpw nobody st 9 "" request "docs").0 in
    (is_served "docs" false model ≡ true)
    × (MayManage checkpw nobody st "" request model × (after.tenant ≡ some 1))
require_model_auth-MayManage_example =
    require_model_auth-MayManage checkpw nobody st 9 "" request "docs" model granted

chat_granted : (require_chat_auth checkpw nobody st 9 request "docs").1 ≡ allow model
unfolding require_chat_auth extract_bearer strip_lem
chat_granted = refl

require_chat_auth-MayChat_example :
    (is_served "docs" true model ≡ true) × MayChat checkpw nobody st request model
require_chat_auth-MayChat_example =
    require_chat_auth-MayChat checkpw nobody st 9 request "docs" model chat_granted

abbrev ann : User
ann = record {
  clerk_user_id = "user_1";
  email = none;
  first_name = none;
  last_name = none;
  allow_global_keys = true;
}

get_or_create_user-permissions_example :
    owner_can_use_global_keys
      (get_or_create_user (ann ∷ []) "user_1" (some "ann@ragr.dev") none none).0
      "user_1"
    ≡ owner_can_use_global_keys (ann ∷ []) "user_1"
get_or_create_user-permissions_example =
    get_or_create_user-permissions (ann ∷ []) "user_1" "user_1" (some "ann@ragr.dev") none none
