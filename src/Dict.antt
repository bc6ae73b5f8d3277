-- ===== src/Dict.antt =====
-- Python's `dict` with text keys, as the services use it: `get`, item assignment, `pop`, `len`,
-- iteration over the keys. Clients have the laws.
use ragr.Prelude.{
  if◌then◌else◌, Bool-cases, length, any, length-map, All, ℕ, suc, ◌≤◌, String, ◌≡◌, refl, inl, inr,
  Option, none, some, List, [], ◌∷◌, map, arith, str_eq, eq_iff, eq_refl,
}

pub record Dict {ℓ} (V : Type ℓ) : Type ℓ where
  entries : List (String × V)

module _ {ℓ} {V : Type ℓ} where
  lookup : String → List (String × V) → Option V
  lookup k [] = none
  lookup k ((j, v) ∷ d) = if str_eq j k then some v else lookup k d

  insert : String → V → List (String × V) → List (String × V)
  insert k v [] = (k, v) ∷ []
  insert k v ((j, w) ∷ d) = if str_eq j k then (k, v) ∷ d else (j, w) ∷ insert k v d

  without : String → List (String × V) → List (String × V)
  without k [] = []
  without k ((j, v) ∷ d) = if str_eq j k then without k d else (j, v) ∷ without k d

  unfoldable pub empty : Dict V
  empty = record { entries = [] }

  -- d.get(k)
  unfoldable pub get : Dict V → String → Option V
  unfolding lookup
  get d k = lookup k d.entries

  -- d[k] = v
  unfoldable pub put : Dict V → String → V → Dict V
  unfolding insert
  put d k v = record { entries = insert k v d.entries }

  -- d.pop(k, None)
  unfoldable pub remove : Dict V → String → Dict V
  unfolding without
  remove d k = record { entries = without k d.entries }

  -- len(d)
  unfoldable pub size : Dict V → ℕ
  size d = length d.entries

  -- the keys, in insertion order
  unfoldable pub keys : Dict V → List String
  keys d = map (λ e. e.0) d.entries

  -- for k in ks: del d[k]
  unfoldable pub remove_all : List String → Dict V → Dict V
  remove_all [] d = d
  remove_all (k ∷ ks) d = remove_all ks (remove d k)

  lookup-insert :
      (k j : String) (v : V) (d : List (String × V))
      → lookup j (insert k v d) ≡ (if str_eq k j then some v else lookup j d)
  unfolding lookup insert
  lookup-insert k j v [] = refl
  lookup-insert k j v ((i, w) ∷ d) =
      ground (arith, eq_iff k j, eq_iff i k, eq_iff i j, lookup-insert k j v d)

  lookup-without :
      (k j : String) (d : List (String × V))
      → lookup j (without k d) ≡ (if str_eq k j then none else lookup j d)
  unfolding lookup without
  lookup-without k j [] = ground arith
  lookup-without k j ((i, w) ∷ d) =
      ground (arith, eq_iff k j, eq_iff i k, eq_iff i j, lookup-without k j d)

  length-insert-le :
      (k : String) (v : V) (d : List (String × V)) → length (insert k v d) ≤ suc (length d)
  unfolding insert
  length-insert-le k v [] = omega arith
  length-insert-le k v ((i, w) ∷ d) = ground (arith, length-insert-le k v d)

  length-insert_present :
      (k : String) (v w : V) (d : List (String × V))
      → lookup k d ≡ some w
      → length (insert k v d) ≡ length d
  unfolding lookup insert
  length-insert_present k v w [] h = ground arith
  length-insert_present k v w ((i, u) ∷ d) h = ground (arith, length-insert_present k v w d)

  length-without-le : (k : String) (d : List (String × V)) → length (without k d) ≤ length d
  unfolding without
  length-without-le k [] = omega arith
  length-without-le k ((i, w) ∷ d) = ground (arith, length-without-le k d)

  length-without_present :
      (k : String) (w : V) (d : List (String × V))
      → lookup k d ≡ some w
      → suc (length (without k d)) ≤ length d
  unfolding lookup without
  length-without_present k w [] h = ground arith
  length-without_present k w ((i, u) ∷ d) h =
      ground (arith, length-without_present k w d, length-without-le k d)

  pub get-put :
      (d : Dict V) (k j : String) (v : V)
      → get (put d k v) j ≡ (if str_eq k j then some v else get d j)
  unfolding get put
  get-put d k j v = lookup-insert k j v d.entries

  pub get-remove :
      (d : Dict V) (k j : String) → get (remove d k) j ≡ (if str_eq k j then none else get d j)
  unfolding get remove
  get-remove d k j = lookup-without k j d.entries

  pub size-put-le : (d : Dict V) (k : String) (v : V) → size (put d k v) ≤ suc (size d)
  unfolding size put
  size-put-le d k v = length-insert-le k v d.entries

  pub size-put_present :
      (d : Dict V) (k : String) (v w : V) → get d k ≡ some w → size (put d k v) ≡ size d
  unfolding size put get
  size-put_present d k v w h = length-insert_present k v w d.entries h

  pub size-remove-le : (d : Dict V) (k : String) → size (remove d k) ≤ size d
  unfolding size remove
  size-remove-le d k = length-without-le k d.entries

  pub size-remove_present :
      (d : Dict V) (k : String) (w : V) → get d k ≡ some w → suc (size (remove d k)) ≤ size d
  unfolding size remove get
  size-remove_present d k w h = length-without_present k w d.entries h

  abbrev pub IsPresent : Dict V → String → Type ℓ
  IsPresent d k = (v : V) × (get d k ≡ some v)

  lookup-cons :
      (i k : String) (u w : V) (d : List (String × V))
      → lookup k d ≡ some w
      → (v : V) × (lookup k ((i, u) ∷ d) ≡ some v)
  unfolding lookup
  lookup-cons i k u w d h = elim (Bool-cases (str_eq i k)) [
    | inl here ↦ (u, rw here)
    | inr other ↦ (w, rw other h)
  ]

  All-lookup-cons :
      (i : String) (u : V) (d : List (String × V)) (ks : List String)
      → All (λ k. (v : V) × (lookup k d ≡ some v)) ks
      → All (λ k. (v : V) × (lookup k ((i, u) ∷ d) ≡ some v)) ks
  All-lookup-cons i u d [] h = tt
  All-lookup-cons i u d (k ∷ ks) ((w, h), hs) =
      (lookup-cons i k u w d h, All-lookup-cons i u d ks hs)

  lookup_keys :
      (d : List (String × V)) → All (λ k. (v : V) × (lookup k d ≡ some v)) (map (λ e. e.0) d)
  unfolding lookup
  lookup_keys [] = tt
  lookup_keys ((i, u) ∷ d) =
      ((u, rw (eq_refl i)), All-lookup-cons i u d (map (λ e. e.0) d) (lookup_keys d))

  -- iteration yields keys that are present
  pub keys-IsPresent : (d : Dict V) → All (IsPresent d) (keys d)
  unfolding keys get
  keys-IsPresent d = lookup_keys d.entries

  pub length-keys : (d : Dict V) → length (keys d) ≡ size d
  unfolding keys size
  length-keys d = length-map (λ e. e.0) d.entries

  pub get-remove_all :
      (ks : List String) (d : Dict V) (j : String)
      → get (remove_all ks d) j ≡ (if any (λ k. str_eq k j) ks then none else get d j)
  unfolding remove_all
  get-remove_all [] d j = refl
  get-remove_all (k ∷ ks) d j = ground (arith, get-remove_all ks (remove d k) j, get-remove d k j)

pub get-empty {ℓ} : {V : Type ℓ} (k : String) → get (empty {V = V}) k ≡ none
unfolding get empty
get-empty k = refl

pub ruleset dict_laws = (get-empty, get-put, get-remove)
