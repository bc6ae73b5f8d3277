-- ===== src/Users.antt =====
-- app/services/users.py: the rows of signed-in users.
use ragr.Prelude.{
  if◌then◌else◌, Bool-cases, String, ◌≡◌, refl, inl, inr, Bool, true, false, ◌||◌, not, Option,
  none, some, List, [], ◌∷◌, arith, str_eq,
}
use ragr.Models.Chat.{User}

abbrev pub same_option : Option String → Option String → Bool
same_option none none = true
same_option (some a) (some b) = str_eq a b
same_option _ _ = false

-- The columns that come from Clerk, as `excluded` has them.
abbrev refreshed : User → User → User
refreshed new old = record old {
  email = new.email;
  first_name = new.first_name;
  last_name = new.last_name;
}

-- IS DISTINCT FROM on one of the three columns
abbrev is_distinct : User → User → Bool
is_distinct new old =
    not (same_option old.email new.email)
    || (not (same_option old.first_name new.first_name)
        || not (same_option old.last_name new.last_name))

upsert : List User → User → List User × User
upsert [] new = (new ∷ [], new)
upsert (old ∷ users) new =
    let rest = upsert users new in
    if str_eq old.clerk_user_id new.clerk_user_id
    then (let row = if is_distinct new old then refreshed new old else old in (row ∷ users, row))
    else (old ∷ rest.0, rest.1)

unfoldable pub get_or_create_user :
    List User → String → Option String → Option String → Option String → List User × User
unfolding upsert
get_or_create_user users clerk_user_id email first_name last_name = upsert users (record {
  clerk_user_id = clerk_user_id;
  email = email;
  first_name = first_name;
  last_name = last_name;
  allow_global_keys = false;
})

unfoldable pub owner_can_use_global_keys : List User → String → Bool
owner_can_use_global_keys [] owner_clerk_id = false
owner_can_use_global_keys (u ∷ users) owner_clerk_id =
    let rest = owner_can_use_global_keys users owner_clerk_id in
    if str_eq u.clerk_user_id owner_clerk_id then u.allow_global_keys else rest

upsert-permissions :
    (users : List User) (new : User) (owner : String)
    → new.allow_global_keys ≡ false
    → owner_can_use_global_keys (upsert users new).0 owner ≡ owner_can_use_global_keys users owner
unfolding upsert owner_can_use_global_keys
upsert-permissions [] new owner h = ground (arith, h)
upsert-permissions (old ∷ users) new owner h =
    let ih = upsert-permissions users new owner h in
    elim (Bool-cases (str_eq old.clerk_user_id new.clerk_user_id)) [
      | inl same ↦ elim (Bool-cases (is_distinct new old)) [
        | inl changed ↦ rw (same, changed) refl
        | inr unchanged ↦ rw (same, unchanged) refl
      ]
      | inr other ↦ rw (other, ih) refl
    ]

-- Signing in, with whatever name and address, changes nobody's permission to use the platform's keys:
-- a new user has none, and a refreshed row keeps its own.
pub get_or_create_user-permissions :
    (users : List User) (id owner : String) (email first last : Option String)
    → owner_can_use_global_keys (get_or_create_user users id email first last).0 owner
      ≡ owner_can_use_global_keys users owner
unfolding get_or_create_user
get_or_create_user-permissions users id owner email first last =
    upsert-permissions users _ owner refl
