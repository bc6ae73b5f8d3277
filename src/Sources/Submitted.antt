-- ===== src/Sources/Submitted.antt =====
-- What a submission of URLs or of uploaded objects leaves, for every reply.
use ragr.Prelude.{
  Bool-cases, Option-cases, length, any, length-map, All, ℕ, String, ◌≡◌, refl, subst, ◌⊎◌, inl,
  inr, Bool, true, false, ◌||◌, not, none, some, List, [], ◌∷◌, map, arith,
}
use ragr.Text.{Text}
use ragr.Models.{RagModel}
use ragr.Models.Job.{JobParams, no_params}
use ragr.UrlValidation.{
  ParsedUrl, Resolver, Validity, valid, ssrf_error, value_error, IsSafe, validate_url-IsSafe,
  Validity-cases,
}
use ragr.Wikipedia.{is_wikipedia_url}
use ragr.RateLimit.{is_allowed}
use ragr.Ingest.Db.{Database}
use ragr.Ingest.Queued.{Queued, Queued-nil, Queued-cons, queue_url-Queued, queue_r2_file-Queued}
use ragr.Ingest.Queueing.{queue_url, queue_r2_file}
use ragr.Dependencies.{Reply, allow, http_exception, exception}
use ragr.Sources.{Api, ingest_key, limited}
use ragr.Sources.Submit.{
  CreateSourceRequest, CreateSourceResponse, targets_of, queue_urls, refusal, first_refusal,
  create_source,
}
use ragr.Sources.Upload.{
  ConfirmFileInfo, climbs, is_upload_of, confirm_files, commit_files, confirm_upload,
}

abbrev url_params : String × String → JobParams
url_params t = record no_params { url = some t.0; source_identifier = some t.1 }

queue_urls-Queued :
    (db : Database) (now m : ℕ) (targets : List (String × String))
    → Queued db
        (queue_urls db now m targets)
        m
        "url"
        (map url_params targets)
        (map (λ (t : String × String). t.1) targets)
unfolding queue_urls
queue_urls-Queued db now m [] = Queued-nil db m "url"
queue_urls-Queued db now m ((url, ident) ∷ targets) =
    Queued-cons (queue_url-Queued db now m ident url)
      (queue_urls-Queued (queue_url db now m ident url) now m targets)

-- whether a validation raises an SSRFError
abbrev is_ssrf : Validity → Bool
is_ssrf (ssrf_error _) = true
is_ssrf _ = false

-- whether a validation raises another ValueError
abbrev is_value_error : Validity → Bool
is_value_error (value_error _) = true
is_value_error _ = false

module _ (urlparse : String → ParsedUrl) (unquote : Text → Text) (getaddrinfo : Resolver) where
  -- A Wikipedia article, or a URL that `IsSafe` describes.
  abbrev pub MayFetch : String → Type 0
  MayFetch url = (is_wikipedia_url urlparse unquote url ≡ true) ⊎ IsSafe urlparse getaddrinfo url

  abbrev pub is_refused : String × String → Bool
  is_refused t = is_ssrf (refusal urlparse unquote getaddrinfo t.0)

  abbrev pub is_raised : String × String → Bool
  is_raised t = is_value_error (refusal urlparse unquote getaddrinfo t.0)

  refusal-valid : (url : String) → refusal urlparse unquote getaddrinfo url ≡ valid → MayFetch url
  refusal-valid url h = elim (Bool-cases (is_wikipedia_url urlparse unquote url)) [
    | inl article ↦ inl article
    | inr other ↦ inr (validate_url-IsSafe urlparse getaddrinfo url (ground (arith, h, other)))
  ]

  -- What the first error says of the targets.
  abbrev Refused : List (String × String) → Validity → Type 0
  Refused targets valid = All (λ (t : String × String). MayFetch t.0) targets
  Refused targets (ssrf_error _) = any is_refused targets ≡ true
  Refused targets (value_error _) = any is_raised targets ≡ true

  later-Refused :
      (t : String × String) (targets : List (String × String)) (v : Validity)
      → MayFetch t.0
      → Refused targets v
      → Refused (t ∷ targets) v
  later-Refused t targets valid fine h = (fine, h)
  later-Refused t targets (ssrf_error m) fine h = ground (arith, h)
  later-Refused t targets (value_error m) fine h = ground (arith, h)

  first_refusal-Refused :
      (targets : List (String × String))
      → Refused targets (first_refusal urlparse unquote getaddrinfo targets)
  unfolding first_refusal
  first_refusal-Refused [] = tt
  first_refusal-Refused ((url, ident) ∷ targets) =
      elim (Validity-cases (refusal urlparse unquote getaddrinfo url)) [
        | inl fine ↦ rw fine (
            later-Refused (url, ident) targets (first_refusal urlparse unquote getaddrinfo targets)
              (refusal-valid url fine) (first_refusal-Refused targets))
        | inr (inl (m, bad)) ↦ rw bad (ground (arith, bad))
        | inr (inr (m, bad)) ↦ rw bad (ground (arith, bad))
      ]

  -- What the reply to a request says of the tables before and after it.
  abbrev pub IsCreated :
      Api
      → ℕ
      → RagModel
      → CreateSourceRequest
      → Database
      → Reply (List CreateSourceResponse)
      → Type 0
  IsCreated api now model body db' (allow responses) =
      (targets : List (String × String)) × ((targets_of body ≡ some targets)
        × (All (λ (t : String × String). MayFetch t.0) targets
            × (Queued api.db db' model.id "url" (map url_params targets)
                  (map (λ (t : String × String). t.1) targets)
                × (length responses ≡ length targets))))
  IsCreated api now model body db' (http_exception code detail) =
      (db' ≡ api.db)
      × (((code ≡ 429) × ((is_allowed api.limiter now (ingest_key model.id)).1 ≡ false))
          ⊎ ((code ≡ 422)
              × ((targets_of body ≡ none)
                  ⊎ ((targets : List (String × String)) × ((targets_of body ≡ some targets)
                        × (any is_refused targets ≡ true))))))
  IsCreated api now model body db' exception =
      (db' ≡ api.db)
      × ((targets : List (String × String)) × ((targets_of body ≡ some targets)
            × (any is_raised targets ≡ true)))

  -- If the reply to a submission of URLs is a success, each URL is a Wikipedia article or http(s) with a
  -- host of which no address is blocked, one fresh job for each was added in their order, each source is
  -- pending, and nothing else changed. If it is an error, the tables are as before, and the limiter had
  -- refused (429), or the request has no URL or one that is refused (422). If another exception ends the
  -- request, the tables are as before, and the name of a URL's host has no encoding.
  pub create_source-IsCreated :
      (api : Api) (now : ℕ) (model : RagModel) (body : CreateSourceRequest)
      → let done = create_source urlparse unquote getaddrinfo api now model body in
        IsCreated api now model body done.0.db done.1
  unfolding create_source limited
  create_source-IsCreated api now model body =
      elim (Bool-cases (is_allowed api.limiter now (ingest_key model.id)).1) [
        | inr refused ↦ rw refused (refl, inl (refl, refused))
        | inl allowed ↦ elim (Option-cases (targets_of body)) [
          | inl missing ↦ rw (allowed, missing) (refl, inr (refl, inl missing))
          | inr (targets, given) ↦
              let all = first_refusal-Refused targets in
              elim (Validity-cases (first_refusal urlparse unquote getaddrinfo targets)) [
                | inl fine ↦
                    rw (allowed, given, fine)
                      (
                        targets,
                        (
                          given,
                          (
                            subst (Refused targets) fine all,
                            (queue_urls-Queued api.db now model.id targets, length-map _ targets),
                          ),
                        ),
                      )
                | inr (inl (m, bad)) ↦
                    rw (allowed, given, bad)
                      (refl, inr (refl, inr (targets, (given, subst (Refused targets) bad all))))
                | inr (inr (m, bad)) ↦
                    rw (allowed, given, bad)
                      (refl, (targets, (given, subst (Refused targets) bad all)))
              ]
        ]
      ]

abbrev r2_params : ConfirmFileInfo → JobParams
r2_params f = record no_params { object_key = some f.object_key; filename = some f.filename }

-- A key under the model's own folder, that does not climb out of it.
abbrev pub IsOwnKey : ℕ → ConfirmFileInfo → Type 0
IsOwnKey m f = (climbs f.object_key ≡ false) × (is_upload_of m f.object_key ≡ true)

abbrev is_foreign : ℕ → ConfirmFileInfo → Bool
is_foreign m f = climbs f.object_key || not (is_upload_of m f.object_key)

-- What the loop over the files says of the tables, which it has changed or is to leave.
abbrev Confirming : Database → ℕ → List ConfirmFileInfo → Reply Database → Type 0
Confirming db m files (allow db') =
    All (IsOwnKey m) files
    × Queued db db' m "r2_file" (map r2_params files)
        (map (λ (f : ConfirmFileInfo). f.filename) files)
Confirming db m files (http_exception code detail) =
    ((code ≡ 422) ⊎ (code ≡ 403)) × (any (is_foreign m) files ≡ true)
Confirming db m files exception = false ≡ true

confirm_files-Confirming :
    (db : Database) (now m : ℕ) (files : List ConfirmFileInfo)
    → Confirming db m files (confirm_files db now m files)
unfolding confirm_files
confirm_files-Confirming db now m [] = (tt, Queued-nil db m "r2_file")
confirm_files-Confirming db now m (f ∷ files) = elim (Bool-cases (climbs f.object_key)) [
  | inl bad ↦ rw bad (inl refl, ground (arith, bad))
  | inr level ↦ elim (Bool-cases (is_upload_of m f.object_key)) [
    | inr foreign ↦ rw (level, foreign) (inr refl, ground (arith, foreign))
    | inl own ↦
        rw (level, own)
          (extend (confirm_files (queue_r2_file db now m f.filename f.object_key) now m files) level
            own
            (confirm_files-Confirming (queue_r2_file db now m f.filename f.object_key) now m files))
  ]
]
  where
    extend :
        (rest : Reply Database)
        → climbs f.object_key ≡ false
        → is_upload_of m f.object_key ≡ true
        → Confirming (queue_r2_file db now m f.filename f.object_key) m files rest
        → Confirming db m (f ∷ files) rest
    extend (allow db') level own (keys, queued) = (
      ((level, own), keys),
      Queued-cons (queue_r2_file-Queued db now m f.filename f.object_key) queued,
    )
    extend (http_exception code detail) level own (which, bad) = (which, ground (arith, bad))
    extend exception level own h = h

-- What the reply to a confirmation says of the tables before and after it.
abbrev pub IsConfirmed :
    Bool
    → Database
    → ℕ
    → List ConfirmFileInfo
    → Database
    → Reply (List CreateSourceResponse)
    → Type 0
IsConfirmed configured db m files db' (allow responses) =
    (configured ≡ true)
    × (All (IsOwnKey m) files
        × (Queued db db' m "r2_file" (map r2_params files)
              (map (λ (f : ConfirmFileInfo). f.filename) files)
            × (length responses ≡ length files)))
IsConfirmed configured db m files db' (http_exception code detail) =
    (db' ≡ db)
    × (((code ≡ 501) × (configured ≡ false))
        ⊎ (((code ≡ 422) ⊎ (code ≡ 403)) × (any (is_foreign m) files ≡ true)))
IsConfirmed configured db m files db' exception = false ≡ true

commit_files-IsConfirmed :
    (db : Database) (m : ℕ) (files : List ConfirmFileInfo) (reply : Reply Database)
    → Confirming db m files reply
    → IsConfirmed true db m files (commit_files db files reply).0 (commit_files db files reply).1
commit_files-IsConfirmed db m files (allow db') (keys, queued) =
    (refl, (keys, (queued, length-map _ files)))
commit_files-IsConfirmed db m files (http_exception code detail) bad = (refl, inr bad)
commit_files-IsConfirmed db m files exception h = h

-- If the reply to a confirmation of uploads is a success, every key lies under the model's own folder and
-- has no `..` component, one fresh job for each file was added in their order, each source is pending,
-- and nothing else changed. If it is an error, the tables are as before, also when an earlier file of the
-- request was fine, and the store is not configured or some key is not the model's own. It never raises
-- otherwise.
pub confirm_upload-IsConfirmed :
    (configured : Bool) (db : Database) (now : ℕ) (model : RagModel) (files : List ConfirmFileInfo)
    → let done = confirm_upload configured db now model files in
      IsConfirmed configured db model.id files done.0 done.1
unfolding confirm_upload
confirm_upload-IsConfirmed true db now model files =
    commit_files-IsConfirmed db model.id files (confirm_files db now model.id files)
      (confirm_files-Confirming db now model.id files)
confirm_upload-IsConfirmed false db now model files = (refl, inl (refl, refl))
